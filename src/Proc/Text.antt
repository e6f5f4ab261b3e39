-- ===== src/Proc/Text.antt =====
-- The formats "%d", "%i", "%ld", "%lld" and "%s" of the C library, on bytes.
use Prim.Native.String.{String}
use Prim.Native.Char.{code}
use native.Mathlib.Nat.{pow-suc}
use lkp.Prelude.{
  ℕ, zero, suc, ◌+◌, ◌/◌, ◌%◌, ◌^◌, ◌≤◌, ◌<◌, ◌-◌, List, [], ◌∷◌, arith, ltb, if◌then◌else◌, length,
  take,
}
use lkp.Prelude.Int.{ℤ, pos, negsuc}

-- The bytes of a literal.
abbrev pub codes : String → List ℕ
codes String.[] = []
codes (String.◌∷◌ c s) = code c ∷ codes s

-- The decimal digits of `n` in front of `acc`. The fuel is an upper bound of `n`, plus one.
unfoldable pub digits : ℕ → ℕ → List ℕ → List ℕ
digits zero n acc = acc
digits (suc f) n acc =
    let rest = digits f (n / 10) ((b'0' + n % 10) ∷ acc) in
    if ltb n 10 then (b'0' + n) ∷ acc else rest

unfoldable pub show : ℕ → List ℕ
unfolding digits
show n = digits (n + 1) n []

unfoldable pub show_int : ℤ → List ℕ
unfolding show
show_int (pos n) = show n
show_int (negsuc n) = b'-' ∷ show (n + 1)

-- snprintf(buffer, size, ...) of a text: what the buffer holds before its NUL.
abbrev pub snprintf : ℕ → List ℕ → List ℕ
snprintf size text = take (size - 1) text

digits-length-le :
    (k f n : ℕ) (acc : List ℕ) → n < 10 ^ suc k → length (digits f n acc) ≤ suc k + length acc
unfolding digits
digits-length-le k zero n acc h = omega arith
digits-length-le zero (suc f) n acc h = ground (arith, pow-suc 10 0)
digits-length-le (suc k) (suc f) n acc h = ground (
  arith,
  pow-suc 10 (suc k),
  digits-length-le k f (n / 10) ((b'0' + n % 10) ∷ acc) (omega (arith, pow-suc 10 (suc k), h)),
)

-- A number below 10 ^ k has at most k digits.
pub show-length-le : (k n : ℕ) → n < 10 ^ suc k → length (show n) ≤ suc k
unfolding show
show-length-le k n h = omega (arith, digits-length-le k (n + 1) n [] h)
