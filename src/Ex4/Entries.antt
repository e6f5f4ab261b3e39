-- ===== src/Ex4/Entries.antt =====
-- The linked list of EX_4/ex4.c, with its objects by their address: store_value, test_linked_list and
-- destroy_linked_list_and_free.
pub mod Frees
use lkp.Prelude.Int.{pos, ℤ}
use lkp.Prelude.{◌+◌, ◌==◌, [], some, Bool, if◌then◌else◌, none, Option, ◌∷◌, ◌++◌, List, ℕ}
use lkp.Proj2.Kernel.{Number}

-- What the calls of the kernel answer; the tree has none of this code.
pub record Kernel : Type 0 where
  pub kmalloc : ℕ → List ℕ → Option ℕ  -- the n-th call, where those objects live
  pub kstrdup : Bool
  pub kstrtoint : List ℕ → Number
  pub left : ℕ → ℤ  -- what the register of return values holds after the n-th store_value

pub record Entry : Type 0 where
  pub at : ℕ
  pub val : ℤ

-- What printk wrote.
pub data Line : Type 0 where
  data_in_the_list : ℤ → Line
  cleaning_up : Line
  missing_int_str : Line

pub record Globals : Type 0 where
  pub mylist : List Entry
  pub heap : List ℕ  -- the addresses of the live objects of kmalloc
  pub calls : ℕ
  pub log : List Line

abbrev pub fresh : Globals
fresh = record { mylist = []; heap = []; calls = 0; log = [] }

pub data Result : Type 0 where
  returns : ℤ → Globals → Result
  faults : Globals → Result

-- kmalloc's result is written through unchecked, and there is no return statement.
unfoldable pub store_value : Kernel → ℤ → Globals → Result
store_value k v g = elim (k.kmalloc g.calls g.heap) [
  | none ↦ faults g
  | some a ↦ returns (k.left g.calls) (record g {
    mylist = g.mylist ++ record { at = a; val = v } ∷ [];
    heap = a ∷ g.heap;
    calls = g.calls + 1;
  })
]

abbrev pub data_lines : List Entry → List Line
data_lines [] = []
data_lines (e ∷ r) = data_in_the_list e.val ∷ data_lines r

unfoldable pub test_linked_list : Globals → Globals
test_linked_list g = record g { log = g.log ++ data_lines g.mylist }

-- kfree: `none` where no object lives at the address. The text that kstrdup copies is freed before, and no
-- part of `heap`.
unfoldable pub kfree : ℕ → List ℕ → Option (List ℕ)
kfree a [] = none
kfree a (b ∷ h) =
    let rest = kfree a h in
    if a == b then some h else elim rest [ none ↦ none | some h' ↦ some (b ∷ h') ]

-- offsetof(struct entry, list)
abbrev pub list_offset : ℕ
list_offset = 8

-- kfree(data) and kfree(pos), where pos points to data->list
unfoldable pub free_entry : ℕ → List ℕ → Option (List ℕ)
unfolding kfree
free_entry a h = elim (kfree a h) [ none ↦ none | some h' ↦ kfree (a + list_offset) h' ]

-- The loop of list_for_each_safe over the rest of mylist.
unfoldable pub destroy_linked_list_and_free : List Entry → Globals → Result
unfolding free_entry
destroy_linked_list_and_free [] g = returns (pos 0) g
destroy_linked_list_and_free (e ∷ r) g =
    let rest = destroy_linked_list_and_free r in
    elim (free_entry e.at g.heap) [
      | none ↦ faults (record g { mylist = r })
      | some h ↦ rest (record g { mylist = r; heap = h })
    ]
