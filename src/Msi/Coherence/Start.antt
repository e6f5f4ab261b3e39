-- ===== src/Msi/Coherence/Start.antt =====
-- The state in which the two machines of Project_3_new/part4/part4.c begin.
use mathlib.Core.Path.{fun_ext}
use lkp.Msi.Coherence.Defs.{nobody, Coherent}
use lkp.Msi.Data.{unset, update, invalid, Machine, max_size, ProcInfo, MsiList}
use lkp.Msi.Start.{fresh_info, booted, first_message, start_second, start_first, clear_from}
use lkp.Prelude.{
  Bool, ◌+◌, ◌-◌, ap, ◌∙◌, refl, inl, inr, Bool-cases, ◌↔◌, ◌⊎◌, true, arith, ltb, some, ◌&&◌, none,
  ◌<◌, leb, if◌then◌else◌, ◌≤◌, ◌≡◌, ℕ, zero, suc,
}

-- What the loop leaves, where it stays inside the array.
cleared : ℕ → ℕ → (ℕ → MsiList) → ℕ → MsiList
cleared m c l q = if leb c q && ltb q (c + m) then invalid else l q

cleared-suc :
    (m c : ℕ) (l : ℕ → MsiList) → cleared m (c + 1) (update l c invalid) ≡ cleared (suc m) c l
unfolding cleared
cleared-suc m c l = fun_ext λ q. ground arith

cleared-zero : (c : ℕ) (l : ℕ → MsiList) → cleared zero c l ≡ l
unfolding cleared
cleared-zero c l = fun_ext λ q. ground arith

cleared-get : (n p : ℕ) → p < n → cleared n 0 (λ _. unset) p ≡ invalid
unfolding cleared
cleared-get n p lt = ground arith

-- The loop ends and clears the flags, exactly where its last index is in the array.
clear_from-fits :
    (m c : ℕ) (l : ℕ → MsiList) → c + m ≤ max_size → clear_from m c l ≡ some (cleared m c l)
unfolding clear_from
clear_from-fits zero c l h = rw (cleared-zero c l) refl
clear_from-fits (suc m) c l h =
    let inside : ltb c max_size ≡ true = ground arith in
    rw inside
      (clear_from-fits m (c + 1) (update l c invalid) (omega arith) ∙ ap some (cleared-suc m c l))

clear_from-leaves :
    (m c : ℕ) (l : ℕ → MsiList) → c ≤ max_size → max_size < c + m → clear_from m c l ≡ none
unfolding clear_from
clear_from-leaves zero c l h k = absurd (omega arith)
clear_from-leaves (suc m) c l h k = elim (Bool-cases (ltb c max_size)) [
  | inl inside ↦
      rw inside (clear_from-leaves m (c + 1) (update l c invalid) (ground arith) (omega arith))
  | inr outside ↦ rw outside refl
]

pub booted-Coherent :
    (n s : ℕ) (buffer buffer' : ℕ → ℕ) (whole : Bool) (base : ℕ) (garbage : ProcInfo)
    (l : ℕ → MsiList)
    → n ≤ max_size
    → 1 < s
    → buffer (s - 1) ≡ 0
    → buffer' (s - 1) ≡ 0
    → whole ≡ true
    → ((p : ℕ) → p < n → l p ≡ invalid)
    → Coherent n s
        (λ _. nobody)
        (booted 1 n s buffer whole (fresh_info n) l)
        (booted 2 n s buffer' whole (first_message n base garbage) l)
unfolding first_message
booted-Coherent n s buffer buffer' whole base garbage l h k e e' w all = record {
  sized = ground arith;
  pages = λ p lt. ground (arith, all p lt);
}

-- Whatever the memory of the message's variable held, the handshake leaves every page with nobody:
-- both processes map the same pages, and all of them are invalid on both.
pub start-Coherent :
    (n s : ℕ) (buffer buffer' : ℕ → ℕ) (whole : Bool) (base : ℕ) (garbage : ProcInfo)
    → n ≤ max_size
    → 1 < s
    → buffer (s - 1) ≡ 0
    → buffer' (s - 1) ≡ 0
    → whole ≡ true
    → (a b : Machine) × (start_first n s buffer whole ≡ some a)
      × (start_second (first_message n base garbage) s buffer' whole ≡ some b)
      × Coherent n s (λ _. nobody) a b
unfolding start_first start_second first_message
start-Coherent n s buffer buffer' whole base garbage h k e e' w = (
  booted 1 n s buffer whole (fresh_info n) (cleared n 0 (λ _. unset)),
  booted 2 n s buffer' whole (first_message n base garbage) (cleared n 0 (λ _. unset)),
  rw (clear_from-fits n 0 (λ _. unset) (omega arith)) refl,
  rw (clear_from-fits n 0 (λ _. unset) (omega arith)) refl,
  booted-Coherent n s buffer buffer' whole base garbage (cleared n 0 (λ _. unset)) h k e e' w
      (λ p lt. cleared-get n p lt),
)

nat-split : (n : ℕ) → (n ≤ max_size) ⊎ (max_size < n)
nat-split n = elim (Bool-cases (leb n max_size)) [
  | inl le ↦ inl (ground arith)
  | inr gt ↦ inr (ground arith)
]

-- The loops that clear the flags, which have no test of the page count, stay inside list_MSI on
-- both machines if the page count is at most MAX_SIZE; with a larger one, and only then, both write
-- past its end.
pub start-overflow :
    (n s : ℕ) (buffer : ℕ → ℕ) (whole : Bool) (base : ℕ) (garbage : ProcInfo)
    → ((start_first n s buffer whole ≡ none) ↔ (max_size < n))
      × ((start_second (first_message n base garbage) s buffer whole ≡ none) ↔ (max_size < n))
unfolding start_first start_second first_message
start-overflow n s buffer whole base garbage = elim (nat-split n) [
  | inl h ↦ rw (clear_from-fits n 0 (λ _. unset) (omega arith)) (
    ((λ e. ground arith), (λ k. absurd (omega arith))),
    ((λ e. ground arith), (λ k. absurd (omega arith))),
  )
  | inr h ↦
      rw (clear_from-leaves n 0 (λ _. unset) (omega arith) (omega arith))
        (((λ e. omega arith), (λ k. refl)), ((λ e. omega arith), (λ k. refl)))
]
