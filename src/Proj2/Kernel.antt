-- ===== src/Proj2/Kernel.antt =====
-- What Project_2/submission_new/proj2.c takes from the kernel: `T` is the type of its hash tables, `R`
-- that of its radix trees. `Laws` states what the module relies on.
use lkp.Proj2.Rb.{in_order, Rb}
use lkp.Prelude.{◌⊎◌, [], ◌≢◌, some, none, ◌≡◌, Option, ◌∷◌, List, Bool, ℕ}
use lkp.Prelude.Int.{ℤ}
use mathlib.Core.List.{Perm}

-- kstrtoint: its result, and the value it writes when that is 0
pub record Number : Type 0 where
  pub err : ℤ
  pub val : ℤ

pub record Kernel (T R : Type 0) : Type 0 where
  pub kmalloc : ℕ → Bool  -- whether the n-th call allocates
  pub kstrdup : Bool
  pub kstrtoint : List ℕ → Number
  pub hash_add : T → ℤ → T
  pub hash_walk : T → List ℤ
  pub rebalance : Rb → Rb  -- rb_insert_color
  pub rb_erase : Rb → ℤ → Rb  -- of the node with the value
  pub radix_insert_entry : R → ℕ → ℤ → R
  pub radix_lookup : R → ℕ → Option ℤ
  pub radix_walk : R → List ℕ  -- the indices of radix_tree_for_each_slot
  pub radix_delete : R → ℕ → R
  pub hash_del : T → ℤ → T

abbrev pub AreFound : (ℕ → Option ℤ) → List ℕ → Type 0
AreFound lookup [] = Unit {0}
AreFound lookup (key ∷ keys) = (lookup key ≢ none) × AreFound lookup keys

-- The indices of a walk: which there are, and that each comes once.
abbrev pub HasKey : ℕ → List ℕ → Type 0
HasKey key [] = ⊥
HasKey key (k ∷ ks) = (key ≡ k) ⊎ HasKey key ks

abbrev pub Distinct : List ℕ → Type 0
Distinct [] = Unit {0}
Distinct (k ∷ ks) = (¬ HasKey k ks) × Distinct ks

pub record Laws {T R : Type 0} (k : Kernel T R) : Type 0 where
  pub hash_add-Perm : (t : T) (v : ℤ) → Perm (k.hash_walk (k.hash_add t v)) (v ∷ k.hash_walk t)
  pub in_order-rebalance : (t : Rb) → in_order (k.rebalance t) ≡ in_order t
  pub lookup-insert_same :
      (t : R) (key : ℕ) (v : ℤ)
      → k.radix_lookup t key ≡ none
      → k.radix_lookup (k.radix_insert_entry t key v) key ≡ some v
  pub lookup-insert_other :
      (t : R) (key other : ℕ) (v : ℤ)
      → key ≢ other
      → k.radix_lookup (k.radix_insert_entry t key v) other ≡ k.radix_lookup t other
  pub insert_present :
      (t : R) (key : ℕ) (v w : ℤ) → k.radix_lookup t key ≡ some w → k.radix_insert_entry t key v ≡ t
  pub walk-HasKey : (t : R) (key : ℕ) → k.radix_lookup t key ≢ none → HasKey key (k.radix_walk t)
  pub walk-Distinct : (t : R) → Distinct (k.radix_walk t)
  pub walk-AreFound : (t : R) → AreFound (k.radix_lookup t) (k.radix_walk t)
