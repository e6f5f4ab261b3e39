-- ===== src/Counter/Digits.antt =====
-- The decimal texts of Project_4/part2/s2fs.c: what "%d" prints, strtol reads.
use lkp.Prelude.Int.{neg_part, pos_part, negsuc, pos, ℤ}
use lkp.Prelude.{
  false, true, ltb, ◌%◌, ap, ◌/◌, ◌∙◌, arith, ◌≡◌, ◌++◌, zero, ◌-◌, ◌^◌, length, ◌+◌, suc, ◌*◌, ◌<◌,
  [], ◌≤◌, ◌∷◌, List, ℕ,
}
use native.Mathlib.Decide.{dec_lt}
use lkp.Proc.Text.{digits, show, show_int}

abbrev pub IsDigit : ℕ → Type 0
IsDigit c = (b'0' ≤ c) × (c ≤ b'9')

abbrev pub AreDigits : List ℕ → Type 0
AreDigits [] = Unit
AreDigits (c ∷ s) = IsDigit c × AreDigits s

-- The number that the digits `s` have behind digits of the number `acc`.
abbrev pub value : ℕ → List ℕ → ℕ
value acc [] = acc
value acc (c ∷ s) = value (acc * 10 + (c - b'0')) s

-- What ends a number.
abbrev pub Ends : List ℕ → Type 0
Ends [] = Unit
Ends (c ∷ s) = ¬ IsDigit c

abbrev pub negate : ℕ → ℤ
negate zero = pos 0
negate (suc n) = negsuc n

-- simple_strtol in base 10: digits up to one that is none are a number, and a '-' in front negates it.
pub record IsStrtol (strtol : List ℕ → ℤ) : Type 0 where
  pub plain :
      (s r : List ℕ)
      → AreDigits s
      → 0 < length s
      → value 0 s < 2 ^ 63
      → Ends r
      → strtol (s ++ r) ≡ pos (value 0 s)
  pub minus :
      (s r : List ℕ)
      → AreDigits s
      → 0 < length s
      → value 0 s < 2 ^ 63
      → Ends r
      → strtol (b'-' ∷ (s ++ r)) ≡ negate (value 0 s)

digits-AreDigits : (f n : ℕ) (acc : List ℕ) → AreDigits acc → AreDigits (digits f n acc)
unfolding digits
digits-AreDigits zero n acc h = h
digits-AreDigits (suc f) n acc h =
    let rest =
      digits-AreDigits f (n / 10) ((b'0' + n % 10) ∷ acc) ((omega arith, omega arith), h) in
    elim (dec_lt n 10) [
      | yes small ↦
          let test : ltb n 10 ≡ true = ground arith in rw test ((omega arith, omega arith), h)
      | no big ↦ let test : ltb n 10 ≡ false = ground arith in rw test rest
    ]

value-digits : (f n : ℕ) (acc : List ℕ) → n < f → value 0 (digits f n acc) ≡ value n acc
unfolding digits
value-digits zero n acc h = absurd (omega arith)
value-digits (suc f) n acc h = elim (dec_lt n 10) [
  | yes small ↦
      let test : ltb n 10 ≡ true = ground arith in
      let e : 0 * 10 + (b'0' + n - b'0') ≡ n = omega arith in rw test (ap (λ m. value m acc) e)
  | no big ↦
      let test : ltb n 10 ≡ false = ground arith in
      let e : n / 10 * 10 + (b'0' + n % 10 - b'0') ≡ n = omega arith in
      rw test
        (value-digits f (n / 10) ((b'0' + n % 10) ∷ acc) (omega arith) ∙ ap (λ m. value m acc) e)
]

digits-length-lt : (f n : ℕ) (acc : List ℕ) → length acc < length (digits (suc f) n acc)
unfolding digits
digits-length-lt zero n acc = ground arith
digits-length-lt (suc f) n acc = ground (arith, digits-length-lt f (n / 10) ((b'0' + n % 10) ∷ acc))

show-AreDigits : (n : ℕ) → AreDigits (show n)
unfolding show
show-AreDigits n = digits-AreDigits (n + 1) n [] _

value-show : (n : ℕ) → value 0 (show n) ≡ n
unfolding show
value-show n = value-digits (n + 1) n [] (omega arith)

show-length-pos : (n : ℕ) → 0 < length (show n)
unfolding show
show-length-pos n = let e : n + 1 ≡ suc n = omega arith in rw e (digits-length-lt n n [])

-- strtol reads what "%d" prints of a number of 64 bits, up to what ends it.
pub strtol-show_int :
    (strtol : List ℕ → ℤ) (z : ℤ) (r : List ℕ)
    → IsStrtol strtol
    → pos_part z + neg_part z < 2 ^ 63
    → Ends r
    → strtol (show_int z ++ r) ≡ z
unfolding show_int
strtol-show_int strtol (pos n) r s h e =
    s.plain (show n) r (show-AreDigits n) (show-length-pos n) (omega (arith, value-show n)) e
    ∙ ap pos (value-show n)
strtol-show_int strtol (negsuc n) r s h e =
    let one : n + 1 ≡ suc n = omega arith in
    s.minus (show (n + 1)) r (show-AreDigits (n + 1)) (show-length-pos (n + 1))
      (omega (arith, value-show (n + 1))) e
    ∙ ap negate (value-show (n + 1) ∙ one)
