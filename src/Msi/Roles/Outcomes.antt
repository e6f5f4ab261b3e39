-- ===== src/Msi/Roles/Outcomes.antt =====
-- All ends of two processes that are started at any time.
use lkp.Msi.Roles.Final.{server-cases}
use lkp.Msi.Roles.{
  Process, Move, Runs, IsFinal, ClientAt, begun, trying, refused, joined, retrying, choosing,
  asking, waiting, in_menu, listen, connect_fails, connect, set_first, set_second, reconnect, ask,
  wait, send_info, go_on, first, second,
}
use lkp.Msi.Roles.Owns.{Owns, client-Numbered, steps-Owns}
use lkp.Prelude.{refl, ℕ, true, false, ◌≡◌, ◌≤◌, ◌⊎◌, inl, inr, arith, Bool-cases}

-- Machine 1 in its menu.
abbrev pub Leads : Process → Type 0
Leads x = (x.client ≡ in_menu) × (x.mch_num ≡ 1)

-- Machine 2 in its menu, with its region.
abbrev pub Follows : Process → Type 0
Follows x = (x.client ≡ in_menu) × (x.mch_num ≡ 2) × (x.mapped ≡ true)

-- Machine 2, which waits for its region.
abbrev pub Starves : Process → Type 0
Starves x = (x.client ≡ waiting) × (x.mch_num ≡ 2) × (x.mapped ≡ false)

-- Where a process is that no step brings further.
process-ends :
    (x y : Process) (c : ClientAt)
    → x.client ≡ c
    → Owns x y
    → ((x' : Process) → ¬ Move x y x')
    → ((y' : Process) → ¬ Move y x y')
    → Leads x ⊎ Follows x ⊎ Starves x
process-ends x y trying e o fin gin = elim (server-cases y.server) [
  | inl b ↦ absurd (fin _ (connect_fails e b))
  | inr b ↦ absurd (fin _ (connect e b))
]
process-ends x y refused e o fin gin = absurd (fin _ (set_first e))
process-ends x y joined e o fin gin = absurd (fin _ (set_second e))
process-ends x y retrying e o fin gin = elim (server-cases y.server) [
  | inl b ↦ absurd (gin _ (listen b))
  | inr b ↦ absurd (fin _ (reconnect e b))
]
process-ends x y choosing e o fin gin = elim (client-Numbered x y choosing e o) [
  | inl k ↦ absurd (fin _ (ask e k))
  | inr k ↦ absurd (fin _ (wait e (λ h. omega (arith, h, k))))
]
process-ends x y asking e o fin gin = absurd (fin _ (send_info e))
process-ends x y waiting e o fin gin = elim (Bool-cases x.mapped) [
  | inl m ↦ absurd (fin _ (go_on e m))
  | inr m ↦ inr (inr (e, client-Numbered x y waiting e o, m))
]
process-ends x y in_menu e o fin gin = elim (client-Numbered x y in_menu e o) [
  | inl (k, s) ↦ inl (e, k)
  | inr (k, m) ↦ inr (inl (e, k, m))
]

-- Machine 2 has its region from machine 1.
peer-Leads : (x y : Process) → Owns x y → Owns y x → Follows x → y.mch_num ≡ 1
peer-Leads x y o p (e, k, m) = elim (o.region m) [
  | inl h ↦ absurd (omega (arith, h, k))
  | inr h ↦ p.informs h
]

outcome :
    (x y : Process)
    → Owns x y
    → Owns y x
    → Leads x ⊎ Follows x ⊎ Starves x
    → Leads y ⊎ Follows y ⊎ Starves y
    → (Leads x × (Follows y ⊎ Starves y))
      ⊎ ((Follows x ⊎ Starves x) × Leads y)
      ⊎ (Leads x × Leads y)
      ⊎ (Starves x × Starves y)
outcome x y o p (inl a) (inl b) = inr (inr (inl (a, b)))
outcome x y o p (inl a) (inr b) = inl (a, b)
outcome x y o p (inr a) (inl b) = inr (inl (a, b))
outcome x y o p (inr (inl a)) (inr (inl b)) = absurd (omega (arith, peer-Leads x y o p a, b.1))
outcome x y o p (inr (inl a)) (inr (inr b)) = absurd (omega (arith, peer-Leads x y o p a, b.1))
outcome x y o p (inr (inr a)) (inr (inl b)) = absurd (omega (arith, peer-Leads y x p o b, a.1))
outcome x y o p (inr (inr a)) (inr (inr b)) = inr (inr (inr (a, b)))

-- Two processes start at any time, so that their threads take their steps in any order. A run has at most
-- eighteen steps. Where it ends, one process is machine 1 in its menu, and the other is machine 2, in
-- its menu with its region or waiting for it; or both are machine 1 and in their menus; or both are
-- machine 2, and each waits for a region that nobody sends.
pub final-outcomes :
    (n : ℕ) (x y : Process)
    → Runs begun begun n x y
    → IsFinal x y
    → (n ≤ 18)
      × ((Leads x × (Follows y ⊎ Starves y))
          ⊎ ((Follows x ⊎ Starves x) × Leads y)
          ⊎ (Leads x × Leads y)
          ⊎ (Starves x × Starves y))
final-outcomes n x y r fin =
    let (o, p, l) = steps-Owns n x y r in
    let a =
      process-ends x y x.client refl o (λ z m. fin z y (first m)) (λ z m. fin x z (second m)) in
    let b =
      process-ends y x y.client refl p (λ z m. fin x z (second m)) (λ z m. fin z y (first m)) in
    (omega (arith, l), outcome x y o p a b)
