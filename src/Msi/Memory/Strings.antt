-- ===== src/Msi/Memory/Strings.antt =====
-- Strings in memory: what the bytes at an address spell, and how memcpy and memset change it.
use lkp.Prelude.{
  true, ap, ◌∙◌, get_or, ◌+◌, ◌-◌, ◌<◌, ◌++◌, arith, length, ◌≤◌, ◌≡◌, List, ℕ, [], ◌∷◌, zero, suc,
  refl,
}
use lkp.Msi.Memory.{memcpy, IsText, string_at, has_nul}

-- A string with a first byte is not empty.
pub string_at-cons :
    (n : ℕ) (mem : ℕ → ℕ) (off : ℕ)
    → 0 < n
    → 0 < mem off
    → string_at n mem off ≡ mem off ∷ string_at (n - 1) mem (off + 1)
unfolding string_at
string_at-cons zero mem off h k = absurd (omega arith)
string_at-cons (suc n) mem off h k = ground arith

pub string_at-nul : (n : ℕ) (mem : ℕ → ℕ) (off : ℕ) → mem off ≡ 0 → string_at n mem off ≡ []
unfolding string_at
string_at-nul zero mem off h = refl
string_at-nul (suc n) mem off h = ground arith

-- Memories that agree from an address on spell the same string there.
pub string_at-agree :
    (n : ℕ) (mem mem' : ℕ → ℕ) (off : ℕ)
    → ((i : ℕ) → off ≤ i → mem i ≡ mem' i)
    → string_at n mem off ≡ string_at n mem' off
unfolding string_at
string_at-agree zero mem mem' off h = refl
string_at-agree (suc n) mem mem' off h =
    ground (arith, h off, string_at-agree n mem mem' (off + 1) (λ i k. h i (omega arith)))

-- A text that stands in memory is the beginning of the string there.
pub string_at-text :
    (r : List ℕ) (n : ℕ) (mem : ℕ → ℕ) (off : ℕ)
    → IsText r
    → length r ≤ n
    → ((i : ℕ) → i < length r → mem (off + i) ≡ get_or r i 0)
    → string_at n mem off ≡ r ++ string_at (n - length r) mem (off + length r)
unfolding string_at
string_at-text [] n mem off t h k = ground arith
string_at-text (c ∷ cs) zero mem off t h k = absurd (omega arith)
string_at-text (c ∷ cs) (suc n) mem off t h k =
    let rest =
      string_at-text cs n mem (off + 1) t.1 (omega arith) (λ i lt. ground (arith, k (suc i))) in
    ground (arith, k 0, rest)

-- A text that memcpy puts into memory is followed by what stood behind it.
pub string_at-memcpy :
    (r : List ℕ) (n : ℕ) (mem : ℕ → ℕ) (off : ℕ)
    → IsText r
    → length r ≤ n
    → string_at n (memcpy mem off r) off ≡ r ++ string_at (n - length r) mem (off + length r)
string_at-memcpy r n mem off t h =
    string_at-text r n (memcpy mem off r) off t h (λ i k. ground arith)
    ∙ ap (◌++◌ r) (
        string_at-agree (n - length r) (memcpy mem off r) mem (off + length r)
          (λ i k. ground arith))

-- A zero among the bytes ends the string.
pub has_nul-at :
    (n : ℕ) (mem : ℕ → ℕ) (off k : ℕ) → k < n → mem (off + k) ≡ 0 → has_nul n mem off ≡ true
unfolding has_nul
has_nul-at zero mem off k h e = absurd (omega arith)
has_nul-at (suc n) mem off zero h e = ground arith
has_nul-at (suc n) mem off (suc k) h e =
    ground (arith, has_nul-at n mem (off + 1) k (omega arith) (ground arith))

-- The string ends at or before a zero.
pub string_at-short :
    (n : ℕ) (mem : ℕ → ℕ) (off k : ℕ) → mem (off + k) ≡ 0 → length (string_at n mem off) ≤ k
unfolding string_at
string_at-short zero mem off k e = omega arith
string_at-short (suc n) mem off zero e = ground arith
string_at-short (suc n) mem off (suc k) e =
    ground (arith, string_at-short n mem (off + 1) k (ground arith))
