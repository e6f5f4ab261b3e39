-- ===== src/Msi/Roles/Idle.antt =====
-- Where no thread of a process can take a step, and the run that makes both processes machine 2.
use mathlib.Core.Path.{subst}
use lkp.Msi.Roles.{
  here, then_, listen, accept, expect, serve, receive_info, connect_fails, connect, set_first,
  set_second, reconnect, ask, wait, send_info, go_on, first, second, Process, Move, Runs, IsFinal,
  ServerAt, ClientAt, begun, binding, accepting, checking, awaiting, serving, trying, refused,
  joined, retrying, choosing, asking, waiting, in_menu,
}
use lkp.Prelude.{◌∙◌, sym, Bool, true, false, ◌≡◌, refl, arith}

abbrev pub IsServed : ServerAt → Bool → Type 0
IsServed serving s = Unit {0}
IsServed awaiting s = s ≡ false
IsServed binding s = ⊥
IsServed accepting s = ⊥
IsServed checking s = ⊥

abbrev pub IsAtRest : ClientAt → Bool → Type 0
IsAtRest in_menu m = Unit {0}
IsAtRest waiting m = m ≡ false
IsAtRest trying m = ⊥
IsAtRest refused m = ⊥
IsAtRest joined m = ⊥
IsAtRest retrying m = ⊥
IsAtRest choosing m = ⊥
IsAtRest asking m = ⊥

true-false : (b : Bool) → b ≡ true → b ≡ false → ⊥
true-false b h k = absurd (ground (arith, sym h ∙ k))

rests :
    (x y z : Process) → IsServed x.server y.info_sent → IsAtRest x.client x.mapped → ¬ Move x y z
rests x y z i r (listen e) = subst (λ s. IsServed s y.info_sent) e i
rests x y z i r (accept e k) = subst (λ s. IsServed s y.info_sent) e i
rests x y z i r (expect e k) = subst (λ s. IsServed s y.info_sent) e i
rests x y z i r (serve e k) = subst (λ s. IsServed s y.info_sent) e i
rests x y z i r (receive_info e k) =
    true-false y.info_sent k (subst (λ s. IsServed s y.info_sent) e i)
rests x y z i r (connect_fails e k) = subst (λ c. IsAtRest c x.mapped) e r
rests x y z i r (connect e k) = subst (λ c. IsAtRest c x.mapped) e r
rests x y z i r (set_first e) = subst (λ c. IsAtRest c x.mapped) e r
rests x y z i r (set_second e) = subst (λ c. IsAtRest c x.mapped) e r
rests x y z i r (reconnect e k) = subst (λ c. IsAtRest c x.mapped) e r
rests x y z i r (ask e k) = subst (λ c. IsAtRest c x.mapped) e r
rests x y z i r (wait e k) = subst (λ c. IsAtRest c x.mapped) e r
rests x y z i r (send_info e) = subst (λ c. IsAtRest c x.mapped) e r
rests x y z i r (go_on e k) = true-false x.mapped k (subst (λ c. IsAtRest c x.mapped) e r)

pub rests-IsFinal :
    (x y : Process)
    → IsServed x.server y.info_sent
    → IsAtRest x.client x.mapped
    → IsServed y.server x.info_sent
    → IsAtRest y.client y.mapped
    → IsFinal x y
rests-IsFinal x y i r j q x' y' (first m) = rests x y x' i r m
rests-IsFinal x y i r j q x' y' (second m) = rests y x y' j q m

-- Machine 2 before its region is there.
abbrev pub receiver : Process
receiver = record {
  mch_num = 2;
  mapped = false;
  info_sent = false;
  server = awaiting;
  client = waiting;
}

-- Both processes listen before either connects: there is a run after which both are machine 2, each
-- waits for the first message of the other, and no thread can go on.
pub both_second : Runs begun begun 12 receiver receiver × IsFinal receiver receiver
both_second = (
  then_
      (then_
        (then_
          (then_
            (then_
              (then_
                (then_
                  (then_
                    (then_
                      (then_ (then_ (then_ here (first (listen refl))) (second (listen refl)))
                        (first (connect refl (λ h. absurd (ground (arith, h))))))
                      (second (connect refl (λ h. absurd (ground (arith, h))))))
                    (first (set_second refl)))
                  (second (set_second refl)))
                (first (accept refl refl)))
              (second (accept refl refl)))
            (first (expect refl refl)))
          (second (expect refl refl)))
        (first (wait refl (λ h. absurd (omega (arith, h))))))
      (second (wait refl (λ h. absurd (omega (arith, h))))),
  rests-IsFinal receiver receiver refl refl refl refl,
)
