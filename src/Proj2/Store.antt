-- ===== src/Proj2/Store.antt =====
-- The insertions and the parser of Project_2/submission_new/proj2.c. The module's globals are passed
-- from call to call; a call faults where it writes through the pointer of a failed kmalloc.
use lkp.Proj2.Rb.{link, Rb}
use lkp.Prelude.Int.{negsuc, pos, ℤ}
use lkp.Prelude.{
  none, ◌-◌, false, [], ◌^◌, ◌++◌, some, ◌==◌, suc, Option, ◌∷◌, if◌then◌else◌, ℕ, Bool, List,
}
use lkp.Proj2.Kernel.{Kernel}
pub mod Parsed
pub mod Tokens
pub mod NoMemory
pub mod Parses
pub mod Stored
pub mod Order
pub mod Views

pub record Store (T R : Type 0) : Type 0 where
  pub list : List ℤ  -- mylist
  pub table : T  -- myHTable
  pub tree : Rb  -- root
  pub radix : R  -- radix_tree
  pub calls : ℕ  -- the calls of kmalloc so far

pub data Result (T R : Type 0) : Type 0 where
  returns : ℤ → Store T R → Result T R
  faults : Result T R

abbrev pub and_then : {T R : Type 0} → Result T R → (Store T R → Result T R) → Result T R
and_then (returns err s) f = f s
and_then faults f = faults

-- An int as the `unsigned long` index of the radix tree.
unfoldable pub index_of : ℤ → ℕ
index_of (pos n) = n
index_of (negsuc n) = 2 ^ 64 - suc n

unfoldable pub store_value : {T R : Type 0} → Kernel T R → ℤ → Store T R → Result T R
store_value k v s =
    if k.kmalloc (s.calls)
    then returns (pos 0) (record s { list = s.list ++ v ∷ []; calls = suc (s.calls) })
    else faults

unfoldable pub store_hash_value : {T R : Type 0} → Kernel T R → ℤ → Store T R → Result T R
store_hash_value k v s =
    if k.kmalloc (s.calls)
    then returns (pos 0) (record s { table = k.hash_add (s.table) v; calls = suc (s.calls) })
    else faults

abbrev pub rebalanced : {T R : Type 0} → Kernel T R → Rb → Option Rb → Rb
rebalanced k t none = t
rebalanced k t (some t') = k.rebalance t'

-- The tree after insert_rb_tree; at an equal value it returns before it links anything.
unfoldable pub insert_rb_tree : {T R : Type 0} → Kernel T R → Rb → ℤ → Rb
insert_rb_tree k t v = rebalanced k t (link t v)

unfoldable pub rb_tree_insert : {T R : Type 0} → Kernel T R → ℤ → Store T R → Result T R
rb_tree_insert k v s =
    if k.kmalloc (s.calls)
    then returns (pos 0) (record s { tree = insert_rb_tree k (s.tree) v; calls = suc (s.calls) })
    else faults

unfoldable pub radix_insert : {T R : Type 0} → Kernel T R → ℤ → Store T R → Result T R
radix_insert k v s =
    if k.kmalloc (s.calls)
    then returns (pos 0)
        (record s { radix = k.radix_insert_entry (s.radix) (index_of v) v; calls = suc (s.calls) })
    else faults

abbrev pub is_zero : ℤ → Bool
is_zero (pos n) = n == 0
is_zero (negsuc n) = false

-- The body of the loop of parse_params for a number; its `break` cannot be taken, as radix_insert
-- returns 0.
unfoldable pub store_all : {T R : Type 0} → Kernel T R → ℤ → Store T R → Result T R
store_all k v s =
    and_then (and_then (and_then (store_value k v s) (store_hash_value k v)) (rb_tree_insert k v))
      (radix_insert k v)

abbrev pub in_first : ℕ → List (List ℕ) → List (List ℕ)
in_first c [] = (c ∷ []) ∷ []
in_first c (token ∷ tokens) = (c ∷ token) ∷ tokens

-- strsep(&params, ","), called until it gives NULL
unfoldable pub strsep : List ℕ → List (List ℕ)
strsep [] = [] ∷ []
strsep (c ∷ text) = let rest = strsep text in if c == b',' then [] ∷ rest else in_first c rest

-- The loop of parse_params over what strsep gives, with `err` so far.
unfoldable pub parse_tokens :
    {T R : Type 0} → Kernel T R → List (List ℕ) → ℤ → Store T R → Result T R
parse_tokens k [] err s = returns err s
parse_tokens k ([] ∷ tokens) err s = parse_tokens k tokens err s
parse_tokens k ((c ∷ p) ∷ tokens) err s =
    let number = k.kstrtoint (c ∷ p) in
    let rest = and_then (store_all k number.val s) (parse_tokens k tokens (pos 0)) in
    if is_zero (number.err) then rest else returns (number.err) s

unfoldable pub parse_params : {T R : Type 0} → Kernel T R → List ℕ → Store T R → Result T R
parse_params k int_str s =
    if k.kstrdup then parse_tokens k (strsep int_str) (pos 0) s else returns (negsuc 11) s
