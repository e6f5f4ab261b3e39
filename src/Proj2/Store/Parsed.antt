-- ===== src/Proj2/Store/Parsed.antt =====
-- What parse_params of Project_2/submission_new/proj2.c leaves in its four structures.
use lkp.Proj2.Sorted.{IsSorted, sorted_set}
use lkp.Proj2.Rb.{in_order}
use lkp.Proj2.Store.{is_zero, index_of, Store}
use lkp.Prelude.Int.{pos, ℤ}
use lkp.Proj2.Kernel.{Number, Kernel}
use lkp.Prelude.{none, ◌==◌, [], if◌then◌else◌, ◌++◌, ◌∷◌, ◌≡◌, some, Option, ℕ, List}
use mathlib.Core.List.{Perm}

-- The numbers before the first token that is not one, and the error of that token.
pub record Parsed : Type 0 where
  pub values : List ℤ
  pub err : ℤ

unfoldable pub parse : (List ℕ → Number) → List (List ℕ) → Parsed
parse number [] = record { values = []; err = pos 0 }
parse number ([] ∷ tokens) = parse number tokens
parse number ((c ∷ p) ∷ tokens) =
    let rest = parse number tokens in
    let n = number (c ∷ p) in
    if is_zero (n.err)
    then record { values = n.val ∷ rest.values; err = rest.err }
    else record { values = []; err = n.err }

-- What a look-up of `key` gives after the insertions of `vs`, in order, where it gave `before`.
unfoldable pub looked_up : ℕ → Option ℤ → List ℤ → Option ℤ
looked_up key before [] = before
looked_up key (some w) (v ∷ vs) = some w
looked_up key none (v ∷ vs) =
    let there = looked_up key (some v) vs in
    let absent = looked_up key none vs in if index_of v == key then there else absent

-- The structures of `s'` are those of `s` with the numbers `vs`.
pub record Stores {T R : Type 0} (k : Kernel T R) (s s' : Store T R) (vs : List ℤ) : Type 0 where
  pub list-append : s'.list ≡ s.list ++ vs
  pub table-Perm : Perm (k.hash_walk (s'.table)) (k.hash_walk (s.table) ++ vs)
  pub tree-sorted_set : in_order s'.tree ≡ sorted_set (in_order s.tree) vs
  pub tree-IsSorted : IsSorted (in_order s'.tree)
  pub radix-looked_up :
      (key : ℕ) → k.radix_lookup (s'.radix) key ≡ looked_up key (k.radix_lookup (s.radix) key) vs
