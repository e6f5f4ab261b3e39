-- ===== src/Msi/Faults/Mask.antt =====
-- The mask of fault_handler_thread in Project_3_new/part4/part4.c.
use native.Mathlib.Nat.{mul_assoc}
use native.Mathlib.Nat.{pow-suc}
use lkp.Prelude.{
  refl, ◌-◌, sym, ◌+◌, ap, ◌∙◌, ◌≤◌, zero, ◌%◌, ◌/◌, suc, arith, ◌*◌, ◌≡◌, ◌^◌, ◌<◌, ℕ,
}
use lkp.Msi.Faults.{destination, mask_out}

-- A number of w bits that 2 ^ k divides is left alone by a mask of some of the low k bits.
pub mask_out-multiple : (w k q m a : ℕ) → a < 2 ^ w → m < 2 ^ k → a ≡ q * 2 ^ k → mask_out w a m ≡ a
unfolding mask_out
mask_out-multiple zero k q m a h i e = omega arith
mask_out-multiple (suc w) zero q m a h i e =
    let low : m / 2 ≡ 0 = omega arith in
    let all : m % 2 ≡ 0 = omega arith in
    let half : a / 2 < 2 ^ w = omega (arith, pow-suc 2 w) in
    let rest = mask_out-multiple w zero (a / 2) (m / 2) (a / 2) half (omega arith) (omega arith) in
    ground (arith, rest, all)
mask_out-multiple (suc w) (suc k) q m a h i e =
    let half : a / 2 < 2 ^ w = omega (arith, pow-suc 2 w) in
    let less : m / 2 < 2 ^ k = omega (arith, pow-suc 2 k) in
    let twice : a ≡ q * 2 ^ k * 2 =
      e ∙ ap (λ t. q * t) (pow-suc 2 k) ∙ sym (mul_assoc q (2 ^ k) 2) in
    let rest = mask_out-multiple w k q (m / 2) (a / 2) half less (omega (arith, twice)) in
    ground (arith, rest, twice)

-- For a page count of 1 to 4096, the address that is copied to is the one of the fault, where the kernel
-- reports the start of a page.
pub destination-page :
    (q n : ℕ) → q * 4096 < 2 ^ 64 → 0 < n → n ≤ 4096 → destination (q * 4096) n ≡ q * 4096
destination-page q n h k l =
    mask_out-multiple 64 12 q ((n + (2 ^ 64 - 1)) % 2 ^ 64) (q * 4096) h (omega arith) refl
