-- ===== src/Proj2/Store/Order.antt =====
-- The order of the numbers in the text of Project_2/submission_new/proj2.c: what the tree and the radix
-- tree forget of it.
use lkp.Proj2.Store.Stored.{same_key, looked_up-some}
use native.Mathlib.Decide.{dec_lt, ℕ_discrete}
use mathlib.Core.Path.{ap₂, subst}
use mathlib.Core.List.{Permᴰ}
use lkp.Proj2.Sorted.{insert_sorted, sorted_set}
use lkp.Proj2.Store.{index_of}
use lkp.Proj2.Store.Parsed.{looked_up}
use mathlib.Core.HLevel.{hedberg}
use mathlib.Core.Logic.{∥∥₁_elim}
use mathlib.Core.List.{is_set, Perm}
use mathlib.Core.Option
use lkp.Prelude.{
  Bool-cases, inr, ◌⊎◌, inl, ℕ, List, [], ◌∷◌, Option, none, some, ◌≡◌, refl, ap, sym, ◌∙◌, arith,
  ◌<◌, ◌^◌, ◌==◌,
}
use lkp.Prelude.Int.{ℤ-discrete, ℤ, pos, negsuc, ◌<ℤ◌}

ℤ_set : IsSet ℤ
ℤ_set = hedberg ℤ-discrete

ℤ-trichotomy : (a b : ℤ) → (a <ℤ b) ⊎ (a ≡ b) ⊎ (b <ℤ a)
ℤ-trichotomy (pos n) (pos m) = elim (ℕ_discrete n m) [
  | yes e ↦ inr (inl (ap pos e))
  | no d ↦ elim (dec_lt n m) [
    | yes l ↦ inl (omega (arith, l))
    | no l ↦ inr (inr (omega (arith, l, d)))
  ]
]
ℤ-trichotomy (pos n) (negsuc m) = inr (inr (omega arith))
ℤ-trichotomy (negsuc n) (pos m) = inl (omega arith)
ℤ-trichotomy (negsuc n) (negsuc m) = elim (ℕ_discrete n m) [
  | yes e ↦ inr (inl (ap negsuc e))
  | no d ↦ elim (dec_lt n m) [
    | yes l ↦ inr (inr (omega (arith, l)))
    | no l ↦ inl (omega (arith, l, d))
  ]
]

insert_sorted_lt :
    (a b : ℤ) (xs : List ℤ)
    → a <ℤ b
    → insert_sorted a (insert_sorted b xs) ≡ insert_sorted b (insert_sorted a xs)
unfolding insert_sorted
insert_sorted_lt a b [] h = ground arith
insert_sorted_lt a b (x ∷ xs) h = ground (arith, insert_sorted_lt a b xs h)

insert_sorted_comm :
    (a b : ℤ) (xs : List ℤ)
    → insert_sorted a (insert_sorted b xs) ≡ insert_sorted b (insert_sorted a xs)
insert_sorted_comm a b xs = elim (ℤ-trichotomy a b) [
  | inl l ↦ insert_sorted_lt a b xs l
  | inr (inl e) ↦ ap₂ (λ v w. insert_sorted v (insert_sorted w xs)) e (sym e)
  | inr (inr l) ↦ sym (insert_sorted_lt b a xs l)
]

sorted_set-Permᴰ :
    {xs ys : List ℤ} → Permᴰ xs ys → (acc : List ℤ) → sorted_set acc xs ≡ sorted_set acc ys
unfolding sorted_set
sorted_set-Permᴰ Permᴰ.nil acc = refl
sorted_set-Permᴰ (Permᴰ.cons {a = a} {l₂ = l} e d) acc =
    sorted_set-Permᴰ d (insert_sorted a acc) ∙ ap (λ v. sorted_set (insert_sorted v acc) l) e
sorted_set-Permᴰ (Permᴰ.swap {a = a} {b = b} {l = l} e f) acc =
    ap (λ s. sorted_set s l) (insert_sorted_comm b a acc)
    ∙ ap₂ (λ v w. sorted_set (insert_sorted v (insert_sorted w acc)) l) e f
sorted_set-Permᴰ (Permᴰ.trans d e) acc = sorted_set-Permᴰ d acc ∙ sorted_set-Permᴰ e acc

-- An int of 32 bits.
abbrev pub IsInt : ℤ → Type 0
IsInt (pos n) = n < 2 ^ 31
IsInt (negsuc n) = n < 2 ^ 31

abbrev pub AreInts : List ℤ → Type 0
AreInts [] = Unit {0}
AreInts (v ∷ vs) = IsInt v × AreInts vs

index_injective : (a b : ℤ) → IsInt a → IsInt b → index_of a ≡ index_of b → a ≡ b
unfolding index_of
index_injective (pos n) (pos m) h k e = ap pos e
index_injective (pos n) (negsuc m) h k e = absurd (omega (arith, h, k, e))
index_injective (negsuc n) (pos m) h k e = absurd (omega (arith, h, k, e))
index_injective (negsuc n) (negsuc m) h k e = ap negsuc (omega (arith, h, k, e))

AreInts-Permᴰ : {xs ys : List ℤ} → Permᴰ xs ys → AreInts xs → AreInts ys
AreInts-Permᴰ Permᴰ.nil h = h
AreInts-Permᴰ (Permᴰ.cons e d) (h, k) = (subst IsInt e h, AreInts-Permᴰ d k)
AreInts-Permᴰ (Permᴰ.swap e f) (h, r) = (subst IsInt f r.0, (subst IsInt e h, r.1))
AreInts-Permᴰ (Permᴰ.trans d e) h = AreInts-Permᴰ e (AreInts-Permᴰ d h)

looked_up-cons :
    (key : ℕ) (a : ℤ) (xs ys : List ℤ)
    → looked_up key none xs ≡ looked_up key none ys
    → looked_up key none (a ∷ xs) ≡ looked_up key none (a ∷ ys)
unfolding looked_up
looked_up-cons key a xs ys h = ground (arith, h, looked_up-some key a xs, looked_up-some key a ys)

looked_up-swap :
    (key : ℕ) (a b : ℤ) (xs : List ℤ)
    → IsInt a
    → IsInt b
    → looked_up key none (a ∷ b ∷ xs) ≡ looked_up key none (b ∷ a ∷ xs)
unfolding looked_up
looked_up-swap key a b xs h k = elim (Bool-cases (index_of a == key)) [
  | inl p ↦ elim (Bool-cases (index_of b == key)) [
    | inl q ↦
        let e : a ≡ b = index_injective a b h k (same_key _ _ p ∙ sym (same_key _ _ q)) in
        ap₂ (λ v w. looked_up key none (v ∷ w ∷ xs)) e (sym e)
    | inr q ↦ rw (p, q) (sym (looked_up-some key a xs))
  ]
  | inr p ↦ elim (Bool-cases (index_of b == key)) [
    | inl q ↦ rw (p, q) (looked_up-some key b xs)
    | inr q ↦ rw (p, q) refl
  ]
]

looked_up-Permᴰ :
    (key : ℕ) {xs ys : List ℤ}
    → Permᴰ xs ys
    → AreInts xs
    → looked_up key none xs ≡ looked_up key none ys
looked_up-Permᴰ key Permᴰ.nil h = refl
looked_up-Permᴰ key (Permᴰ.cons {a = a} {l₁ = l} {l₂ = m} e d) (h, r) =
    looked_up-cons key a l m (looked_up-Permᴰ key d r) ∙ ap (λ v. looked_up key none (v ∷ m)) e
looked_up-Permᴰ key (Permᴰ.swap {a = a} {b = b} {l = l} e f) (h, r) =
    looked_up-swap key a b l h r.0 ∙ ap₂ (λ v w. looked_up key none (v ∷ w ∷ l)) f e
looked_up-Permᴰ key (Permᴰ.trans d e) h =
    looked_up-Permᴰ key d h ∙ looked_up-Permᴰ key e (AreInts-Permᴰ d h)

-- Neither depends on the order, whatever was there before.
pub sorted_set-Perm :
    {xs ys : List ℤ} (acc : List ℤ) → Perm xs ys → sorted_set acc xs ≡ sorted_set acc ys
sorted_set-Perm acc p = ∥∥₁_elim p (is_set ℤ_set _ _) (λ d. sorted_set-Permᴰ d acc)

pub looked_up-Perm :
    (key : ℕ) (before : Option ℤ) {xs ys : List ℤ}
    → Perm xs ys
    → AreInts xs
    → looked_up key before xs ≡ looked_up key before ys
looked_up-Perm key none p h = ∥∥₁_elim p (Option.is_set ℤ_set _ _) (λ d. looked_up-Permᴰ key d h)
looked_up-Perm key (some w) {xs} {ys} p h = looked_up-some key w xs ∙ sym (looked_up-some key w ys)
