-- ===== src/Msi/Roles/Final.antt =====
-- Where two processes end that were started one after the other.
use mathlib.Core.Path.{subst}
use lkp.Msi.Roles.Ordered.{Placed, IsFirst, IsUp, steps-Ordered, Ordered}
use lkp.Msi.Roles.{
  listen, accept, expect, serve, receive_info, connect, set_second, reconnect, ask, wait, send_info,
  go_on, first, second, is_connected, Process, Move, Runs, IsFinal, ServerAt, ClientAt, begun,
  alone, binding, accepting, checking, awaiting, serving, trying, refused, joined, retrying,
  choosing, asking, waiting, in_menu,
}
use native.Mathlib.Decide.{ℕ_discrete}
use lkp.Prelude.{ap, ℕ, true, false, Bool-cases, ◌≡◌, ◌≢◌, ◌≤◌, ◌⊎◌, inl, inr, refl, arith}

pub server-cases : (s : ServerAt) → (s ≡ binding) ⊎ (s ≢ binding)
server-cases binding = inl refl
server-cases accepting = inr (λ h. absurd (ground (arith, h)))
server-cases checking = inr (λ h. absurd (ground (arith, h)))
server-cases awaiting = inr (λ h. absurd (ground (arith, h)))
server-cases serving = inr (λ h. absurd (ground (arith, h)))

-- A server that no thread can bring further serves, where the other process is connected to it.
server-ends :
    (x y : Process) (s : ServerAt)
    → x.server ≡ s
    → is_connected y.client ≡ true
    → (x.server ≡ awaiting → y.info_sent ≡ true)
    → ((x' : Process) → ¬ Move x y x')
    → x.server ≡ serving
server-ends x y binding e k q fin = absurd (fin _ (listen e))
server-ends x y accepting e k q fin = absurd (fin _ (accept e k))
server-ends x y checking e k q fin = elim (ℕ_discrete x.mch_num 2) [
  | yes h ↦ absurd (fin _ (expect e h))
  | no h ↦ absurd (fin _ (serve e h))
]
server-ends x y awaiting e k q fin = absurd (fin _ (receive_info e (q e)))
server-ends x y serving e k q fin = e

first-ends :
    (x y : Process) (c : ClientAt) → x.client ≡ c → Ordered x y → IsFinal x y → x.client ≡ in_menu
first-ends x y trying e (a, u, f, s) fin = absurd (subst (λ c. IsFirst c x.info_sent) e f)
first-ends x y refused e (a, u, f, s) fin = absurd (subst (λ c. IsFirst c x.info_sent) e f)
first-ends x y joined e (a, u, f, s) fin = absurd (subst (λ c. IsFirst c x.info_sent) e f)
first-ends x y waiting e (a, u, f, s) fin = absurd (subst (λ c. IsFirst c x.info_sent) e f)
first-ends x y retrying e (a, u, f, s) fin = elim (server-cases y.server) [
  | inl b ↦ absurd (fin _ _ (second (listen b)))
  | inr b ↦ absurd (fin _ _ (first (reconnect e b)))
]
first-ends x y choosing e (a, u, f, s) fin = absurd (fin _ _ (first (ask e a)))
first-ends x y asking e (a, u, f, s) fin = absurd (fin _ _ (first (send_info e)))
first-ends x y in_menu e o fin = e

second-ends :
    (x y : Process) (c : ClientAt)
    → y.client ≡ c
    → Ordered x y
    → IsFinal x y
    → (y.mch_num ≡ 2)
      × (((y.client ≡ in_menu) × (y.mapped ≡ true)) ⊎ ((y.client ≡ waiting) × (y.mapped ≡ false)))
second-ends x y trying e (a, u, f, s) fin = elim (server-cases x.server) [
  | inl b ↦ absurd (subst IsUp b u)
  | inr b ↦ absurd (fin _ _ (second (connect e b)))
]
second-ends x y refused e (a, u, f, s) fin = absurd (subst (Placed y) e s)
second-ends x y retrying e (a, u, f, s) fin = absurd (subst (Placed y) e s)
second-ends x y asking e (a, u, f, s) fin = absurd (subst (Placed y) e s)
second-ends x y joined e (a, u, f, s) fin = absurd (fin _ _ (second (set_second e)))
second-ends x y choosing e (a, u, f, s) fin =
    absurd (fin _ _ (second (wait e (λ h. omega (arith, h, subst (Placed y) e s)))))
second-ends x y waiting e (a, u, f, s) fin = elim (Bool-cases y.mapped) [
  | inl m ↦ absurd (fin _ _ (second (go_on e m)))
  | inr m ↦ (subst (Placed y) e s, inr (e, m))
]
second-ends x y in_menu e (a, u, f, s) fin = let (k, m) = subst (Placed y) e s in (k, inl (e, m))

joined-up :
    (y : Process)
    → ((y.client ≡ in_menu) × (y.mapped ≡ true)) ⊎ ((y.client ≡ waiting) × (y.mapped ≡ false))
    → is_connected y.client ≡ true
joined-up y (inl (e, m)) = ap is_connected e
joined-up y (inr (e, m)) = ap is_connected e

-- One process listens and has failed to connect, since the other was not there; now the other starts.
-- A run from there has at most fifteen steps. Where it ends, the first process is machine 1 and in its
-- menu, the second is machine 2, and both serve messages. The second is in its menu, with its
-- region; or it has none, and waits for it forever.
pub final-roles :
    (n : ℕ) (x y : Process)
    → Runs alone begun n x y
    → IsFinal x y
    → (n ≤ 15)
      × (x.mch_num ≡ 1)
      × (x.client ≡ in_menu)
      × (y.mch_num ≡ 2)
      × (x.server ≡ serving)
      × (y.server ≡ serving)
      × (((y.client ≡ in_menu) × (y.mapped ≡ true)) ⊎ ((y.client ≡ waiting) × (y.mapped ≡ false)))
final-roles n x y r fin =
    let start : Ordered alone begun = (refl, tt, tt, tt) in
    let (o, l) = steps-Ordered alone begun n x y start r in
    let c = first-ends x y x.client refl o fin in
    let (k, e) = second-ends x y y.client refl o fin in
    (
      omega (arith, l),
      o.0,
      c,
      k,
      server-ends x y x.server refl (joined-up y e) (λ q. absurd (subst IsUp q o.1))
          (λ z m. fin z y (first m)),
      server-ends y x y.server refl (ap is_connected c)
          (λ q. subst (λ d. IsFirst d x.info_sent) c o.2) (λ z m. fin x z (second m)),
      e,
    )
