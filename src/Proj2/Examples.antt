-- ===== src/Proj2/Examples.antt =====
-- Project_2/submission_new/proj2.c over a simple kernel.
use lkp.Proj2.SimpleKernel.{Slots, kernel, simple, simple-Laws}
use lkp.Proj2.Store.Views.{parse_params-order, view}
use lkp.Proc.Text.{codes, digits, show, show_int}
use lkp.Proj2.Store.NoMemory.{parse_params-faults}
use lkp.Proj2.Store.Parsed.{parse}
use lkp.Proj2.Show.{
  print_ints, print_slots, print_lists, after_slots, print_structures, after_parse, proj2_proc_show,
}
use lkp.Proj2.Show.Prints.{IsListing, proj2_proc_show-page, proj2_proc_show-faults, IsFresh}
use lkp.Proj2.Store.Parses.{parse_params-parse, asked, Gives}
use lkp.Prelude.Int.{pos, ℤ}
use lkp.Proj2.Rb.{link, leaf, in_order}
use lkp.Prelude.{◌++◌, not, ◌==◌, arith, refl, some, ◌≡◌, [], ◌∷◌, ℕ, List}
use mathlib.Core.List.Perm
use lkp.Proj2.Store.{
  index_of, insert_rb_tree, radix_insert, rb_tree_insert, store_hash_value, store_value, store_all,
  parse_tokens, parse_params, strsep, Result, Store, faults, returns,
}

abbrev empty : Store (List ℤ) Slots
empty = record { list = []; table = []; tree = leaf; radix = []; calls = 0 }

-- "b,,a,b,x,c": the error of x ends the run after b, a and b.
abbrev int_str : List ℕ
int_str = b'b' ∷ b',' ∷ b',' ∷ b'a' ∷ b',' ∷ b'b' ∷ b',' ∷ b'x' ∷ b',' ∷ b'c' ∷ []

parse_params-parse_example :
    Gives simple empty (asked simple int_str) (parse_params simple int_str empty)
unfolding in_order
parse_params-parse_example = parse_params-parse simple simple-Laws int_str empty (λ n. refl) tt

strsep_test :
    strsep int_str ≡ (b'b' ∷ []) ∷ [] ∷ (b'a' ∷ []) ∷ (b'b' ∷ []) ∷ (b'x' ∷ []) ∷ (b'c' ∷ []) ∷ []
unfolding strsep
strsep_test = refl

abbrev tree_of : {T R : Type 0} → Result T R → List ℤ
unfolding in_order
tree_of (returns err s) = in_order s.tree
tree_of faults = []

tree_test : tree_of (parse_params simple int_str empty) ≡ pos b'a' ∷ pos b'b' ∷ []
unfolding in_order parse_params strsep parse_tokens store_all store_value store_hash_value
    rb_tree_insert radix_insert insert_rb_tree link
tree_test = refl

simple-IsFresh : IsFresh simple empty
simple-IsFresh = record { no_list = refl; no_table = refl; no_tree = refl; no_radix = λ key. refl }

proj2_proc_show-page_example :
    IsListing (pos 2 ∷ pos 1 ∷ []) (proj2_proc_show simple (some (2 ∷ b',' ∷ 1 ∷ [])) empty).out
unfolding strsep parse
proj2_proc_show-page_example =
    proj2_proc_show-page simple simple-Laws (2 ∷ b',' ∷ 1 ∷ []) empty (λ n. refl) simple-IsFresh
      refl

proj2_proc_show-faults_example : (proj2_proc_show simple (some int_str) empty).result ≡ faults
unfolding strsep parse
proj2_proc_show-faults_example =
    proj2_proc_show-faults simple simple-Laws int_str empty (λ n. refl) simple-IsFresh
      (ground arith)

show_test :
    (proj2_proc_show simple (some (2 ∷ b',' ∷ 1 ∷ [])) empty).out
    ≡ codes "Linked List = 2 1 "
      ++ b'\n' ∷ codes "Hash Table = 1 2 "
      ++ b'\n' ∷ codes "R-B Tree = 1 2 "
      ++ b'\n' ∷ codes "Radix Tree = 1 2 "
      ++ b'\n' ∷ []
unfolding proj2_proc_show after_parse print_structures after_slots print_lists print_slots
    print_ints in_order parse_params strsep parse_tokens store_all store_value store_hash_value
    rb_tree_insert radix_insert insert_rb_tree link show_int show digits index_of
show_test = refl

-- The third kmalloc gives no memory.
parse_params-faults_example : parse_params (kernel (λ n. not (n == 2))) int_str empty ≡ faults
unfolding strsep parse
parse_params-faults_example =
    parse_params-faults (kernel (λ n. not (n == 2))) int_str empty 2 refl (ground arith)
      (omega arith) refl

abbrev one_two : List ℕ
one_two = 1 ∷ b',' ∷ 2 ∷ []

abbrev two_one : List ℕ
two_one = 2 ∷ b',' ∷ 1 ∷ []

parse_params-order_example :
    (a b : Store (List ℤ) Slots) × (parse_params simple one_two empty
      ≡ returns (asked simple one_two).err a)
    × (parse_params simple two_one empty ≡ returns (asked simple two_one).err b)
    × (view simple a ≡ view simple b)
unfolding strsep parse in_order
parse_params-order_example =
    parse_params-order simple simple-Laws one_two two_one empty empty (λ n. refl) tt refl
      (Perm.swap (pos 2) (pos 1) []) (omega arith)
