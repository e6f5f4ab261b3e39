-- ===== src/Proj2/Show.antt =====
-- The proc file of Project_2/submission_new/proj2.c: `proj2_proc_show` prints the four structures into
-- the seq_file and removes them.
use lkp.Proj2.Rb.{in_order}
use lkp.Prelude.{
  length, ◌+◌, ◌||◌, ◌&&◌, not, zero, none, suc, some, ◌++◌, if◌then◌else◌, ◌∷◌, false, Bool, true,
  [], List, ℕ, Option,
}
use lkp.Prelude.Int.{pos, negsuc, ltb_ℤ, ℤ}
use lkp.Proc.Text.{show_int, codes}
use lkp.Proj2.Kernel.{Kernel}
use lkp.Proj2.Store.{parse_params, is_zero, Result, Store, returns, faults, and_then}
pub mod Prints

-- seq_printf(m, "%d ", val) of each value
unfoldable pub print_ints : List ℤ → List ℕ
print_ints [] = []
print_ints (v ∷ vs) = show_int v ++ (codes " " ++ print_ints vs)

-- What the loop over the radix tree printed, and whether it reached its end.
pub record Slots : Type 0 where
  pub text : List ℕ
  pub reached_end : Bool

abbrev pub print_first : Option ℤ → Slots → Slots
print_first none rest = record { text = []; reached_end = false }
print_first (some v) rest = record {
  text = show_int v ++ (codes " " ++ rest.text);
  reached_end = rest.reached_end;
}

unfoldable pub print_slots : (ℕ → Option ℤ) → List ℕ → Slots
print_slots lookup [] = record { text = []; reached_end = true }
print_slots lookup (key ∷ keys) = print_first (lookup key) (print_slots lookup keys)

-- What the seq_file has, and the result.
pub record Shown (T R : Type 0) : Type 0 where
  pub out : List ℕ
  pub result : Result T R

unfoldable pub destroy_linked_list_and_free : {T R : Type 0} → Store T R → Store T R
destroy_linked_list_and_free s = record s { list = [] }

abbrev delete_each : {A T : Type 0} → (T → A → T) → T → List A → T
delete_each delete t [] = t
delete_each delete t (x ∷ xs) = delete_each delete (delete t x) xs

unfoldable pub remove_hash_table : {T R : Type 0} → Kernel T R → Store T R → Store T R
remove_hash_table k s = record s { table = delete_each k.hash_del s.table (k.hash_walk s.table) }

abbrev pub is_same : ℤ → ℤ → Bool
is_same a b = not (ltb_ℤ a b) && not (ltb_ℤ b a)

-- rb_first and rb_next, by the values of the nodes, which differ
abbrev pub first : List ℤ → Option ℤ
first [] = none
first (x ∷ xs) = some x

unfoldable pub next_after : ℤ → List ℤ → Option ℤ
next_after v [] = none
next_after v (x ∷ xs) = let rest = next_after v xs in if is_same x v then first xs else rest

abbrev pub is_freed : ℤ → List ℤ → Bool
is_freed v [] = false
is_freed v (x ∷ xs) = is_same x v || is_freed v xs

-- The loop from the node of a value on, with `n` rounds left, where kfree has taken the nodes of
-- `freed`. rb_next reads the node that it is given, which faults where that is freed.
unfoldable pub remove_from :
    {T R : Type 0} → Kernel T R → ℕ → Option ℤ → List ℤ → Store T R → Result T R
remove_from k zero it freed s = returns (pos 0) s
remove_from k (suc n) none freed s = returns (pos 0) s
remove_from k (suc n) (some v) freed s =
    let t = k.rb_erase s.tree v in
    let rest = remove_from k n (next_after v (in_order t)) (v ∷ freed) (record s { tree = t }) in
    if is_freed v (v ∷ freed) then faults else rest

-- There are as many rounds as nodes, and the test behind the last.
unfoldable pub rb_tree_remove : {T R : Type 0} → Kernel T R → Store T R → Result T R
unfolding remove_from
rb_tree_remove k s = remove_from k (length (in_order s.tree) + 1) (first (in_order s.tree)) [] s

unfoldable pub radix_remove : {T R : Type 0} → Kernel T R → Store T R → Store T R
radix_remove k s = record s { radix = delete_each k.radix_delete s.radix (k.radix_walk s.radix) }

-- cleanup(), and the return of `err` behind it
unfoldable pub cleanup : {T R : Type 0} → Kernel T R → ℤ → Store T R → Result T R
cleanup k err s =
    and_then (rb_tree_remove k (remove_hash_table k (destroy_linked_list_and_free s)))
      (λ s'. returns err (radix_remove k s'))

-- The lines of the list, the table and the tree, with `rest` behind them.
unfoldable pub print_lists : {T R : Type 0} → Kernel T R → Store T R → List ℕ → List ℕ
print_lists k s rest =
    codes "Linked List = "
    ++ (print_ints s.list
        ++ (b'\n' ∷ codes "Hash Table = "
            ++ (print_ints (k.hash_walk s.table)
                ++ (b'\n' ∷ codes "R-B Tree = "
                    ++ (print_ints (in_order s.tree) ++ (b'\n' ∷ codes "Radix Tree = " ++ rest))))))

unfoldable pub after_slots : {T R : Type 0} → Kernel T R → Store T R → Slots → Shown T R
after_slots k s slots =
    if slots.reached_end
    then record { out = print_lists k s (slots.text ++ b'\n' ∷ []); result = cleanup k (pos 0) s }
    else record { out = print_lists k s slots.text; result = returns (negsuc 0) s }

-- The part before `out:`, where parse_params returned 0.
unfoldable pub print_structures : {T R : Type 0} → Kernel T R → Store T R → Shown T R
print_structures k s = after_slots k s (print_slots (k.radix_lookup s.radix) (k.radix_walk s.radix))

unfoldable pub after_parse : {T R : Type 0} → Kernel T R → Result T R → Shown T R
after_parse k faults = record { out = []; result = faults }
after_parse k (returns err s) =
    if is_zero err then print_structures k s else record { out = []; result = cleanup k err s }

-- The kmalloc of temp2 comes first; nothing is written through it.
unfoldable pub proj2_proc_show :
    {T R : Type 0} → Kernel T R → Option (List ℕ) → Store T R → Shown T R
proj2_proc_show k none s = record {
  out = [];
  result = returns (negsuc 0) (record s { calls = suc s.calls });
}
proj2_proc_show k (some int_str) s =
    after_parse k (parse_params k int_str (record s { calls = suc s.calls }))
