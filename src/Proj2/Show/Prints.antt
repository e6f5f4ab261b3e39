-- ===== src/Proj2/Show/Prints.antt =====
-- What the proc file of Project_2/submission_new/proj2.c prints, and how its cleanup ends.
use lkp.Proj2.Store.Parses.{parse_params-parse, asked, Gives}
use lkp.Proj2.Store.Parsed.{Stores, Parsed, looked_up}
use lkp.Proc.Text.{codes}
use mathlib.Core.List.{Perm}
use lkp.Proj2.Rb.{Rb, leaf, in_order}
use lkp.Prelude.Int.{pos, ℤ}
use lkp.Proj2.Show.{
  proj2_proc_show, Slots, radix_remove, destroy_linked_list_and_free, remove_hash_table,
  print_lists, after_parse, rb_tree_remove, remove_from, is_same, first, after_slots, print_ints,
  cleanup, print_slots, print_structures,
}
use lkp.Proj2.Sorted.{IsSorted, insert_sorted, sorted_set}
use native.Mathlib.Numerals.{add-one}
use lkp.Prelude.{
  ◌↔◌, inl, inr, length, ◌+◌, sym, suc, ◌∙◌, refl, ap, arith, true, none, ◌++◌, ◌≢◌, ◌∷◌, some, [],
  ◌≡◌, ℕ, List, Option,
}
use mathlib.Core.Path.{subst, fun_ext}
use lkp.Proj2.Show.{print_first}
use lkp.Proj2.Kernel.{AreFound, HasKey, Distinct, Kernel, Laws}
use lkp.Proj2.Store.{parse_params, Result, Store, returns, faults, and_then}

-- The globals as the module starts with them.
pub record IsFresh {T R : Type 0} (k : Kernel T R) (s : Store T R) : Type 0 where
  pub no_list : s.list ≡ []
  pub no_table : k.hash_walk s.table ≡ []
  pub no_tree : s.tree ≡ leaf
  pub no_radix : (key : ℕ) → k.radix_lookup s.radix key ≡ none

-- The entries of the indices that have one.
abbrev entry : Option ℤ → List ℤ → List ℤ
entry none vs = vs
entry (some v) vs = v ∷ vs

unfoldable pub entries : (ℕ → Option ℤ) → List ℕ → List ℤ
entries lookup [] = []
entries lookup (key ∷ keys) = entry (lookup key) (entries lookup keys)

-- The four lines.
unfoldable pub page : List ℤ → List ℤ → List ℤ → List ℤ → List ℕ
page list table tree radix =
    codes "Linked List = "
    ++ (print_ints list
        ++ (b'\n' ∷ codes "Hash Table = "
            ++ (print_ints table
                ++ (b'\n' ∷ codes "R-B Tree = "
                    ++ (print_ints tree
                        ++ (b'\n' ∷ codes "Radix Tree = " ++ (print_ints radix ++ b'\n' ∷ [])))))))

-- The output is the page of the numbers `vs`, in some order of the hash table, and with the entries
-- of the radix tree: each index that has one, once.
abbrev pub IsListing : List ℤ → List ℕ → Type 0
IsListing vs out =
    (table : List ℤ) × (keys : List ℕ) × Perm table vs
    × Distinct keys
    × ((key : ℕ) → HasKey key keys ↔ (looked_up key none vs ≢ none))
    × (out ≡ page vs table (sorted_set [] vs) (entries (λ key. looked_up key none vs) keys))

-- An index of a walk whose indices are found.
HasKey-found :
    (lookup : ℕ → Option ℤ) (keys : List ℕ) (key : ℕ)
    → AreFound lookup keys
    → HasKey key keys
    → lookup key ≢ none
HasKey-found lookup (k ∷ ks) key f (inl e) = subst (λ j. lookup j ≢ none) (sym e) f.0
HasKey-found lookup (k ∷ ks) key f (inr h) = HasKey-found lookup ks key f.1 h
HasKey-found lookup [] key f h = absurd h

walk-exact :
    {T R : Type 0} (k : Kernel T R) (l : Laws k) (t : R) (found : ℕ → Option ℤ)
    → ((key : ℕ) → k.radix_lookup t key ≡ found key)
    → (key : ℕ) → HasKey key (k.radix_walk t) ↔ (found key ≢ none)
walk-exact k l t found e key = (
  λ h.
      subst (λ o. o ≢ none) (e key)
        (HasKey-found (k.radix_lookup t) (k.radix_walk t) key (l.walk-AreFound t) h),
  λ n. l.walk-HasKey t key (subst (λ o. o ≢ none) (sym (e key)) n),
)

print_first-entry :
    (found : Option ℤ) (vs : List ℤ) (rest : Slots)
    → found ≢ none
    → rest ≡ record { text = print_ints vs; reached_end = true }
    → print_first found rest ≡ record { text = print_ints (entry found vs); reached_end = true }
unfolding print_ints
print_first-entry none vs rest n h = absurd (n refl)
print_first-entry (some v) vs rest n h = ap (print_first (some v)) h

print_slots-entries :
    (lookup : ℕ → Option ℤ) (keys : List ℕ)
    → AreFound lookup keys
    → print_slots lookup keys
      ≡ record { text = print_ints (entries lookup keys); reached_end = true }
unfolding print_slots entries print_ints
print_slots-entries lookup [] h = refl
print_slots-entries lookup (key ∷ keys) h =
    print_first-entry (lookup key) (entries lookup keys) (print_slots lookup keys) h.0
      (print_slots-entries lookup keys h.1)

-- The page of the globals `s`, and then the cleanup.
print_structures-page :
    {T R : Type 0} (k : Kernel T R) (l : Laws k) (s : Store T R)
    → print_structures k s ≡ record {
      out =
          page s.list
            (k.hash_walk s.table)
            (in_order s.tree)
            (entries (k.radix_lookup s.radix) (k.radix_walk s.radix));
      result = cleanup k (pos 0) s;
    }
unfolding print_structures after_slots page print_lists
print_structures-page k l s =
    ap (after_slots k s) (
      print_slots-entries (k.radix_lookup s.radix) (k.radix_walk s.radix) (l.walk-AreFound s.radix))

insert_sorted-cons : (v : ℤ) (xs : List ℤ) → insert_sorted v xs ≢ []
unfolding insert_sorted
insert_sorted-cons v [] = ground arith
insert_sorted-cons v (x ∷ xs) = ground arith

sorted_set-cons : (acc : List ℤ) (vs : List ℤ) → acc ≢ [] → sorted_set acc vs ≢ []
unfolding sorted_set
sorted_set-cons acc [] h = h
sorted_set-cons acc (v ∷ vs) h = sorted_set-cons (insert_sorted v acc) vs (insert_sorted-cons v acc)

page-eq :
    (list list' table tree tree' radix radix' : List ℤ)
    → list ≡ list'
    → tree ≡ tree'
    → radix ≡ radix'
    → page list table tree radix ≡ page list' table tree' radix'
page-eq list list' table tree tree' radix radix' a b c = cc

fresh_tree : (t : Rb) (vs : List ℤ) → t ≡ leaf → sorted_set (in_order t) vs ≡ sorted_set [] vs
unfolding in_order
fresh_tree t vs e = ap (λ u. sorted_set (in_order u) vs) e

fresh_tree-IsSorted : (t : Rb) → t ≡ leaf → IsSorted (in_order t)
unfolding in_order
fresh_tree-IsSorted t e = subst (λ u. IsSorted (in_order u)) (sym e) tt

after_parse-page :
    {T R : Type 0} (k : Kernel T R) (l : Laws k) (s : Store T R) (p : Parsed) (r : Result T R)
    → IsFresh k s
    → p.err ≡ pos 0
    → Gives k s p r
    → IsListing p.values (after_parse k r).out
unfolding after_parse
after_parse-page k l s p faults f e g = absurd g
after_parse-page k l s p (returns err s') f e (h, g) = (
  k.hash_walk s'.table,
  k.radix_walk s'.radix,
  subst (λ t. Perm (k.hash_walk s'.table) (t ++ p.values)) f.no_table g.table-Perm,
  l.walk-Distinct s'.radix,
  walk-exact k l s'.radix (λ key. looked_up key none p.values)
      (λ key. g.radix-looked_up key ∙ ap (λ o. looked_up key o p.values) (f.no_radix key)),
  ap (λ e'. (after_parse k (returns e' s')).out) (h ∙ e)
      ∙ ap (λ shown. shown.out) (print_structures-page k l s')
      ∙ page-eq s'.list p.values (k.hash_walk s'.table) (in_order s'.tree) (sorted_set [] p.values)
          (entries (k.radix_lookup s'.radix) (k.radix_walk s'.radix))
          (entries (λ key. looked_up key none p.values) (k.radix_walk s'.radix))
          (g.list-append ∙ ap (λ t. t ++ p.values) f.no_list)
          (g.tree-sorted_set ∙ fresh_tree s.tree p.values f.no_tree)
          (ap (λ lookup. entries lookup (k.radix_walk s'.radix))
            (fun_ext (λ key.
              g.radix-looked_up key ∙ ap (λ o. looked_up key o p.values) (f.no_radix key)))),
)

is_same_refl : (v : ℤ) → is_same v v ≡ true
is_same_refl v = ground arith

-- Whatever rounds there are, the first of them reads the node that it has freed.
remove_from-faults :
    {T R : Type 0} (k : Kernel T R) (n : ℕ) (v : ℤ) (freed : List ℤ) (s : Store T R)
    → remove_from k (suc n) (some v) freed s ≡ faults
unfolding remove_from
remove_from-faults k n v freed s = rw (is_same_refl v) refl

-- The cleanup faults as soon as the tree has a node.
cleanup-faults :
    {T R : Type 0} (k : Kernel T R) (err : ℤ) (s : Store T R)
    → in_order s.tree ≢ []
    → cleanup k err s ≡ faults
unfolding cleanup rb_tree_remove remove_hash_table destroy_linked_list_and_free
cleanup-faults k err s h = erased (in_order s.tree) h
  where
    erased :
        (xs : List ℤ)
        → xs ≢ []
        → and_then
            (remove_from k
              (length xs + 1)
              (first xs)
              []
              (remove_hash_table k (destroy_linked_list_and_free s)))
            (λ s'. returns err (radix_remove k s'))
          ≡ faults
    erased [] n = absurd (n refl)
    erased (x ∷ xs) n =
        rw
          (
            add-one,
            remove_from-faults k (length (x ∷ xs)) x []
                (remove_hash_table k (destroy_linked_list_and_free s)),
          )
          refl

in_order-cons :
    {T R : Type 0} (k : Kernel T R) (s s' : Store T R) (vs : List ℤ)
    → IsFresh k s
    → Stores k s s' vs
    → vs ≢ []
    → in_order s'.tree ≢ []
unfolding sorted_set
in_order-cons k s s' [] f g n = absurd (n refl)
in_order-cons k s s' (v ∷ vs) f g n = λ e.
    sorted_set-cons (insert_sorted v []) vs (insert_sorted-cons v [])
      (sym (g.tree-sorted_set ∙ fresh_tree s.tree (v ∷ vs) f.no_tree) ∙ e)

after_parse-faults :
    {T R : Type 0} (k : Kernel T R) (l : Laws k) (s : Store T R) (p : Parsed) (r : Result T R)
    → IsFresh k s
    → p.values ≢ []
    → Gives k s p r
    → (after_parse k r).result ≡ faults
unfolding after_parse
after_parse-faults k l s p faults f n g = absurd g
after_parse-faults k l s p (returns err s') f n (h, g) =
    let c = in_order-cons k s s' p.values f g n in
    ground (
      arith,
      ap (λ shown. shown.result) (print_structures-page k l s'),
      cleanup-faults k err s' c,
      cleanup-faults k (pos 0) s' c,
    )

-- The kmalloc of temp2 leaves them as they are.
started :
    {T R : Type 0} (k : Kernel T R) (s : Store T R)
    → IsFresh k s
    → IsFresh k (record s { calls = suc s.calls })
started k s f = record {
  no_list = f.no_list;
  no_table = f.no_table;
  no_tree = f.no_tree;
  no_radix = f.no_radix;
}

-- From the fresh globals, where every kmalloc gives memory and the text is parsed without an error,
-- a read of the proc file prints the page of its numbers: the list in their order, the table in
-- some order, the tree as a sorted set, and the radix tree with the entry of each index that has
-- one, exactly once.
pub proj2_proc_show-page :
    {T R : Type 0} (k : Kernel T R) (l : Laws k) (text : List ℕ) (s : Store T R)
    → ((n : ℕ) → k.kmalloc n ≡ true)
    → IsFresh k s
    → (asked k text).err ≡ pos 0
    → IsListing (asked k text).values (proj2_proc_show k (some text) s).out
unfolding proj2_proc_show
proj2_proc_show-page k l text s m f e =
    let start = record s { calls = suc s.calls } in
    after_parse-page k l start (asked k text) (parse_params k text start) (started k s f) e
      (parse_params-parse k l text start m (fresh_tree-IsSorted s.tree f.no_tree))

-- From the fresh globals, where every kmalloc gives memory, a read of the proc file whose text has
-- a number before its first error ends in a use of freed memory: the cleanup of the search tree
-- steps on from a node that it has freed.
pub proj2_proc_show-faults :
    {T R : Type 0} (k : Kernel T R) (l : Laws k) (text : List ℕ) (s : Store T R)
    → ((n : ℕ) → k.kmalloc n ≡ true)
    → IsFresh k s
    → (asked k text).values ≢ []
    → (proj2_proc_show k (some text) s).result ≡ faults
unfolding proj2_proc_show
proj2_proc_show-faults k l text s m f n =
    let start = record s { calls = suc s.calls } in
    after_parse-faults k l start (asked k text) (parse_params k text start) (started k s f) n
      (parse_params-parse k l text start m (fresh_tree-IsSorted s.tree f.no_tree))
