-- ===== src/Msi/Memory.antt =====
-- The C library calls that part4.c makes on bytes: memset, memcpy, strlen, and the string at an
-- address. Bytes are numbers below 256; a region is a function of the offset.
pub mod Strings
use lkp.Prelude.{
  ℕ, zero, suc, ◌+◌, ◌-◌, ◌<◌, List, [], ◌∷◌, ◌&&◌, ltb, leb, ◌==◌, if◌then◌else◌, length, get_or,
  Bool, true, false,
}

-- memset(mem + off, v, n)
abbrev pub memset : (ℕ → ℕ) → ℕ → ℕ → ℕ → ℕ → ℕ
memset mem off v n a = if leb off a && ltb a (off + n) then v else mem a

-- memcpy(mem + off, bs, length bs)
abbrev pub memcpy : (ℕ → ℕ) → ℕ → List ℕ → ℕ → ℕ
memcpy mem off bs a = if leb off a && ltb a (off + length bs) then get_or bs (a - off) 0 else mem a

-- The string at `off`: the bytes up to the first NUL, of at most `n` bytes. Where `n` is what is left
-- of a buffer, has_nul says whether the string ends in it.
unfoldable pub string_at : ℕ → (ℕ → ℕ) → ℕ → List ℕ
string_at zero mem off = []
string_at (suc n) mem off =
    let rest = string_at n mem (off + 1) in if mem off == 0 then [] else mem off ∷ rest

-- Whether a NUL stands in the `n` bytes at `off`; where none does, strlen and "%s" read past them.
unfoldable pub has_nul : ℕ → (ℕ → ℕ) → ℕ → Bool
has_nul zero mem off = false
has_nul (suc n) mem off = let rest = has_nul n mem (off + 1) in if mem off == 0 then true else rest

-- No byte of a message is NUL.
abbrev pub IsText : List ℕ → Type 0
IsText [] = Unit {0}
IsText (c ∷ cs) = (0 < c) × IsText cs
