-- ===== src/Msi/Setup/Connected.antt =====
-- When the client of Project_3_new/part4/part4.c is connected, and when it never is.
use native.Mathlib.Decide.{ℕ_discrete}
use lkp.Msi.Setup.{connected, Calls, client_setup, retry}
use lkp.Prelude.{
  ℕ, zero, suc, ◌+◌, ◌∙◌, ap, sym, Bool, none, some, true, false, ◌≡◌, ◌≢◌, ◌≤◌, ◌<◌, refl, arith,
  ◌==◌, if◌then◌else◌,
}

-- The attempts end at the first that succeeds.
pub retry_lem :
    (fuel : ℕ) (connect : ℕ → Bool) (n m : ℕ)
    → n ≤ m
    → m < n + fuel
    → connect m ≡ true
    → ((j : ℕ) → n ≤ j → j < m → connect j ≡ false)
    → retry fuel connect n ≡ some m
unfolding retry
retry_lem zero connect n m h k t f = absurd (omega (arith, h, k))
retry_lem (suc fuel) connect n m h k t f = elim (ℕ_discrete n m) [
  | yes q ↦ rw q (rw t refl)
  | no d ↦ rw (f n (omega arith) (omega (arith, h, d))) (
      retry_lem fuel connect (suc n) m (omega (arith, h, d)) (omega (arith, k)) t
        (λ j l u. f j (omega (arith, l)) u))
]

retry-none :
    (fuel : ℕ) (connect : ℕ → Bool) (n : ℕ)
    → ((j : ℕ) → connect j ≡ false)
    → retry fuel connect n ≡ none
unfolding retry
retry-none zero connect n h = refl
retry-none (suc fuel) connect n h = rw (h n) (retry-none fuel connect (suc n) h)

-- connect refuses a descriptor of -1, for which the client does not test: each attempt fails.
pub client_setup-none :
    (fuel : ℕ) (c : Calls) (port : ℕ)
    → ((j : ℕ) → c.connect none port j ≡ false)
    → c.client_fd ≡ none
    → c.inet_aton ≡ true
    → client_setup fuel c port ≡ none
unfolding client_setup
client_setup-none fuel c port h e i =
    let f : (j : ℕ) → c.connect c.client_fd port j ≡ false =
      λ j. ap (λ fd. c.connect fd port j) e ∙ h j in
    let first = f 0 in let q = retry-none fuel (c.connect c.client_fd port) 1 f in ground arith

-- A client whose socket is neither -1 nor 0 is connected by its first attempt that succeeds.
pub client_setup_lem :
    (fuel : ℕ) (c : Calls) (port d n : ℕ)
    → c.client_fd ≡ some d
    → d ≢ 0
    → c.inet_aton ≡ true
    → n ≤ fuel
    → c.connect (some d) port n ≡ true
    → ((j : ℕ) → j < n → c.connect (some d) port j ≡ false)
    → client_setup fuel c port ≡ some (connected (if n == 0 then 2 else 1) (some d) n)
unfolding client_setup
client_setup_lem fuel c port d n e z i k t f = elim (ℕ_discrete n 0) [
  | yes q ↦ let t0 = ap (c.connect (some d) port) (sym q) ∙ t in ground arith
  | no q ↦
      let r =
        retry_lem fuel (c.connect (some d) port) 1 n (omega (arith, q)) (omega (arith, k)) t
          (λ j l u. f j u) in
      let f0 = f 0 (omega (arith, q)) in ground arith
]
