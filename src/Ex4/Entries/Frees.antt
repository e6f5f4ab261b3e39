-- ===== src/Ex4/Entries/Frees.antt =====
-- The objects of EX_4/ex4.c: each entry is freed by two calls of kfree, and the second faults.
use lkp.Ex4.Entries.{list_offset, Entry, kfree, free_entry}
use lkp.Prelude.{
  inr, inl, Bool-cases, ◌⊎◌, ◌≤◌, ◌||◌, refl, [], arith, ◌+◌, ◌≢◌, ◌==◌, none, false, some, ◌∷◌,
  true, ◌≡◌, Bool, Option, List, ℕ,
}

abbrev pub has : ℕ → List ℕ → Bool
has a [] = false
has a (b ∷ h) = a == b || has a h

-- A new object of struct entry, which has 24 bytes, overlaps no object that lives.
pub record IsAllocator (kmalloc : ℕ → List ℕ → Option ℕ) : Type 0 where
  pub apart :
      (n a b : ℕ) (h : List ℕ) → kmalloc n h ≡ some a → has b h ≡ true → (a + 24 ≤ b) ⊎ (b + 24 ≤ a)

kfree-absent : (a : ℕ) (h : List ℕ) → has a h ≡ false → kfree a h ≡ none
unfolding kfree
kfree-absent a [] e = refl
kfree-absent a (b ∷ h) e = ground (arith, kfree-absent a h, e)

-- The address is not that of an object.
abbrev IsAbsent : ℕ → Option (List ℕ) → Type 0
IsAbsent b none = Unit
IsAbsent b (some h) = has b h ≡ false

kfree-IsAbsent : (a b : ℕ) (h : List ℕ) → has b h ≡ false → IsAbsent b (kfree a h)
unfolding kfree
kfree-IsAbsent a b [] e = _
kfree-IsAbsent a b (c ∷ h) e = elim (Bool-cases (a == c)) [
  | inl t ↦ rw t (ground (arith, e))
  | inr t ↦ rw t (with_front (kfree a h) (kfree-IsAbsent a b h (ground (arith, e))))
]
  where
    with_front :
        (rest : Option (List ℕ))
        → IsAbsent b rest
        → IsAbsent b (elim rest [ none ↦ none | some h' ↦ some (c ∷ h') ])
    with_front none r = _
    with_front (some h') r = ground (arith, e, r)

-- No object lives at the `list` of another.
abbrev pub IsSeparate : List ℕ → Type 0
IsSeparate h = (a b : ℕ) → has a h ≡ true → has b h ≡ true → b ≢ a + list_offset

abbrev pub FirstIn : List Entry → List ℕ → Type 0
FirstIn [] h = Unit
FirstIn (e ∷ r) h = has e.at h ≡ true

pub free_entry-none : (a : ℕ) (h : List ℕ) → IsSeparate h → has a h ≡ true → free_entry a h ≡ none
unfolding free_entry
free_entry-none a h s m = after (kfree a h) (kfree-IsAbsent a (a + list_offset) h absent)
  where
    absent : has (a + list_offset) h ≡ false
    absent = elim (Bool-cases (has (a + list_offset) h)) [
      | inl t ↦ absurd (s a (a + list_offset) m t refl)
      | inr t ↦ t
    ]

    after :
        (rest : Option (List ℕ))
        → IsAbsent (a + list_offset) rest
        → elim rest [ none ↦ none | some h' ↦ kfree (a + list_offset) h' ] ≡ none
    after none r = refl
    after (some h') r = kfree-absent (a + list_offset) h' r
