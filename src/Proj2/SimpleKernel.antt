-- ===== src/Proj2/SimpleKernel.antt =====
-- A simple kernel for Project_2/submission_new/proj2.c: a list as the hash table and one of pairs as the
-- radix tree. It satisfies the laws that the theorems ask for.
use lkp.Prelude.Int.{ℤ-discrete, pos, ℤ, negsuc}
use lkp.Prelude.{
  Bool-cases, inl, inr, false, Bool, ◌==◌, arith, refl, if◌then◌else◌, some, ◌≢◌, none, true, ◌≡◌,
  [], ◌∷◌, Option, ℕ, List,
}
use mathlib.Core.List.Perm
use lkp.Proj2.Kernel.{AreFound, HasKey, Distinct, Kernel, Laws, Number}

abbrev pub Slots : Type 0
Slots = List (ℕ × ℤ)

abbrev pub find : Slots → ℕ → Option ℤ
find [] key = none
find ((n, v) ∷ r) key = if n == key then some v else find r key

abbrev pub drop_key : ℕ → List ℕ → List ℕ
drop_key n [] = []
drop_key n (k ∷ ks) = let rest = drop_key n ks in if n == k then rest else k ∷ rest

abbrev pub keys : Slots → List ℕ
keys [] = []
keys ((n, v) ∷ r) = n ∷ drop_key n (keys r)

abbrev pub put : Slots → ℕ → ℤ → Slots
put r key v = elim (find r key) [ none ↦ (key, v) ∷ r | some w ↦ r ]

abbrev pub delete : Slots → ℕ → Slots
delete [] key = []
delete ((n, v) ∷ r) key = if n == key then r else (n, v) ∷ delete r key

-- A number is its first byte; 'x' is not one.
abbrev pub number_of : List ℕ → Number
number_of [] = record { err = negsuc 21; val = pos 0 }
number_of (c ∷ text) =
    if c == b'x'
    then record { err = negsuc 21; val = pos 0 }
    else record { err = pos 0; val = pos c }

abbrev pub delete_value : List ℤ → ℤ → List ℤ
delete_value [] v = []
delete_value (x ∷ xs) v = elim (ℤ-discrete x v) [ yes e ↦ xs | no n ↦ x ∷ delete_value xs v ]

-- The n-th kmalloc gives memory where `given n`.
abbrev pub kernel : (ℕ → Bool) → Kernel (List ℤ) Slots
kernel given = record {
  kmalloc = given;
  kstrdup = true;
  kstrtoint = number_of;
  hash_add = λ t v. v ∷ t;
  hash_walk = λ t. t;
  rebalance = λ t. t;
  rb_erase = λ t v. t;
  radix_insert_entry = put;
  radix_lookup = find;
  radix_walk = keys;
  radix_delete = delete;
  hash_del = delete_value;
}

abbrev pub simple : Kernel (List ℤ) Slots
simple = kernel (λ n. true)

put-same : (r : Slots) (key : ℕ) (v : ℤ) → find r key ≡ none → find (put r key v) key ≡ some v
put-same r key v h = ground (arith, h)

put-other :
    (r : Slots) (key other : ℕ) (v : ℤ) → key ≢ other → find (put r key v) other ≡ find r other
put-other r key other v h = ground (arith, h)

put-present : (r : Slots) (key : ℕ) (v w : ℤ) → find r key ≡ some w → put r key v ≡ r
put-present r key v w h = ground (arith, h)

AreFound-more :
    (n : ℕ) (v : ℤ) (r : Slots) (ks : List ℕ)
    → AreFound (find r) ks
    → AreFound (find ((n, v) ∷ r)) ks
AreFound-more n v r [] h = tt
AreFound-more n v r (k ∷ ks) h = (found, AreFound-more n v r ks h.1)
  where
    found : find ((n, v) ∷ r) k ≢ none
    found = ground (arith, h.0)

AreFound-drop_key :
    (n : ℕ) (lookup : ℕ → Option ℤ) (ks : List ℕ)
    → AreFound lookup ks
    → AreFound lookup (drop_key n ks)
AreFound-drop_key n lookup [] h = tt
AreFound-drop_key n lookup (k ∷ ks) h = elim (Bool-cases (n == k)) [
  | inl same ↦ rw same (AreFound-drop_key n lookup ks h.1)
  | inr other ↦ rw other (h.0, AreFound-drop_key n lookup ks h.1)
]

HasKey-drop_key : (n key : ℕ) (ks : List ℕ) → HasKey key (drop_key n ks) → HasKey key ks × (key ≢ n)
HasKey-drop_key n key [] h = absurd h
HasKey-drop_key n key (k ∷ ks) h = split (n == k) refl (HasKey-drop_key n key ks) h
  where
    split :
        (b : Bool)
        → (n == k) ≡ b
        → (HasKey key (drop_key n ks) → HasKey key ks × (key ≢ n))
        → HasKey key (if b then drop_key n ks else k ∷ drop_key n ks)
        → HasKey key (k ∷ ks) × (key ≢ n)
    split true e rest g = let (a, b) = rest g in (inr a, b)
    split false e rest (inl same) = (inl same, λ other. ground arith)
    split false e rest (inr g) = let (a, b) = rest g in (inr a, b)

drop_key-HasKey : (n key : ℕ) (ks : List ℕ) → key ≢ n → HasKey key ks → HasKey key (drop_key n ks)
drop_key-HasKey n key [] ne h = absurd h
drop_key-HasKey n key (k ∷ ks) ne h = elim (Bool-cases (n == k)) [
  | inl same ↦
      rw same
        (elim h [ inl e ↦ absurd (ne (ground arith)) | inr g ↦ drop_key-HasKey n key ks ne g ])
  | inr other ↦ rw other (elim h [ inl e ↦ inl e | inr g ↦ inr (drop_key-HasKey n key ks ne g) ])
]

drop_key-Distinct : (n : ℕ) (ks : List ℕ) → Distinct ks → Distinct (drop_key n ks)
drop_key-Distinct n [] d = tt
drop_key-Distinct n (k ∷ ks) d = elim (Bool-cases (n == k)) [
  | inl same ↦ rw same (drop_key-Distinct n ks d.1)
  | inr other ↦ rw other ((λ h. d.0 (HasKey-drop_key n k ks h).0), drop_key-Distinct n ks d.1)
]

keys-Distinct : (r : Slots) → Distinct (keys r)
keys-Distinct [] = tt
keys-Distinct ((n, v) ∷ r) =
    ((λ h. (HasKey-drop_key n n (keys r) h).1 refl), drop_key-Distinct n (keys r) (keys-Distinct r))

keys-HasKey : (r : Slots) (key : ℕ) → find r key ≢ none → HasKey key (keys r)
keys-HasKey [] key h = absurd (h refl)
keys-HasKey ((n, v) ∷ r) key h = split (n == key) refl (keys-HasKey r key) h
  where
    split :
        (b : Bool)
        → (n == key) ≡ b
        → (find r key ≢ none → HasKey key (keys r))
        → (if b then some v else find r key) ≢ none
        → HasKey key (keys ((n, v) ∷ r))
    split true e rest g = inl (ground arith)
    split false e rest g = inr (drop_key-HasKey n key (keys r) (λ same. ground arith) (rest g))

keys-AreFound : (r : Slots) → AreFound (find r) (keys r)
keys-AreFound [] = tt
keys-AreFound ((n, v) ∷ r) = (
  found,
  AreFound-more n v r (drop_key n (keys r))
      (AreFound-drop_key n (find r) (keys r) (keys-AreFound r)),
)
  where
    found : find ((n, v) ∷ r) n ≢ none
    found = ground arith

pub simple-Laws : Laws simple
simple-Laws = record {
  hash_add-Perm = λ t v. Perm.refl (v ∷ t);
  in_order-rebalance = λ t. refl;
  lookup-insert_same = put-same;
  lookup-insert_other = put-other;
  insert_present = put-present;
  walk-HasKey = keys-HasKey;
  walk-Distinct = keys-Distinct;
  walk-AreFound = keys-AreFound;
}
