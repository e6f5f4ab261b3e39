-- ===== src/Proj2/Store/Views.antt =====
-- The structures of Project_2/submission_new/proj2.c as far as their contents go: the linked list and the
-- hash table as multisets, the tree as a sorted set, the radix tree by its look-ups.
use mathlib.Core.Path.{subst}
use lkp.Proj2.Sorted.{sorted_set, IsSorted}
use lkp.Proj2.Rb.{in_order}
use mathlib.Core.List.{Perm}
use lkp.Proj2.Kernel.{Laws, Kernel}
use mathlib.Core.List.Perm
use mathlib.Mathlib.Data.Multiset.{Multiset, of_list, coe-eq-coe}
use lkp.Proj2.Store.{Store, Result, returns, faults, parse_params}
use lkp.Proj2.Store.Parsed.{Parsed, Stores, looked_up}
use lkp.Proj2.Store.Parses.{parse_params-parse, asked, Gives}
use lkp.Proj2.Store.Order.{AreInts, sorted_set-Perm, looked_up-Perm}
use lkp.Prelude.{true, ℕ, List, ◌++◌, Option, ◌≡◌, ap, sym, ◌∙◌}
use lkp.Prelude.Int.{ℤ}

pub record View : Type 0 where
  pub list : Multiset ℤ
  pub table : Multiset ℤ
  pub tree : List ℤ
  pub radix : ℕ → Option ℤ

abbrev pub view : {T R : Type 0} → Kernel T R → Store T R → View
view k s = record {
  list = of_list s.list;
  table = of_list (k.hash_walk s.table);
  tree = in_order s.tree;
  radix = k.radix_lookup s.radix;
}

given :
    {T R : Type 0} (k : Kernel T R) (s : Store T R) (p : Parsed) (r : Result T R)
    → Gives k s p r
    → (a : Store T R) × (r ≡ returns p.err a) × Stores k s a p.values
given k s p (returns err a) (e, h) = (a, ap (λ z. returns z a) e, h)
given k s p faults h = elim h [ ]

same_items :
    {xs ys vs ws : List ℤ}
    → of_list xs ≡ of_list ys
    → Perm vs ws
    → of_list (xs ++ vs) ≡ of_list (ys ++ ws)
same_items e p = coe-eq-coe.1 (Perm.append (coe-eq-coe.0 e) p)

view-Stores :
    {T R : Type 0} (k : Kernel T R) (s s' a b : Store T R) (vs ws : List ℤ)
    → view k s ≡ view k s'
    → Perm vs ws
    → AreInts vs
    → Stores k s a vs
    → Stores k s' b ws
    → view k a ≡ view k b
view-Stores k s s' a b vs ws e p ints g h =
    let list : of_list a.list ≡ of_list b.list =
      ap of_list g.list-append
      ∙ same_items (ap (λ v. v.list) e) p
      ∙ sym (ap of_list h.list-append) in
    let table : of_list (k.hash_walk a.table) ≡ of_list (k.hash_walk b.table) =
      coe-eq-coe.1 g.table-Perm
      ∙ same_items (ap (λ v. v.table) e) p
      ∙ sym (coe-eq-coe.1 h.table-Perm) in
    let tree : in_order a.tree ≡ in_order b.tree =
      g.tree-sorted_set
      ∙ ap (λ v. sorted_set v.tree vs) e
      ∙ sorted_set-Perm (in_order s'.tree) p
      ∙ sym h.tree-sorted_set in
    let radix : (key : ℕ) → k.radix_lookup a.radix key ≡ k.radix_lookup b.radix key = λ key.
      g.radix-looked_up key
      ∙ ap (λ v. looked_up key (v.radix key) vs) e
      ∙ looked_up-Perm key (k.radix_lookup s'.radix key) p ints
      ∙ sym (h.radix-looked_up key) in
    λ i. record { list = list i; table = table i; tree = tree i; radix = λ key. radix key i }

-- Where every kmalloc gives memory and the search tree is in order, two texts whose numbers are the same
-- up to their order, and ints of 32 bits, take structures with the same contents to structures with
-- the same contents, each with the error that its text asks for.
pub parse_params-order :
    {T R : Type 0} (k : Kernel T R) (l : Laws k) (text text' : List ℕ) (s s' : Store T R)
    → ((n : ℕ) → k.kmalloc n ≡ true)
    → IsSorted (in_order s.tree)
    → view k s ≡ view k s'
    → Perm (asked k text).values (asked k text').values
    → AreInts (asked k text).values
    → (a b : Store T R) × (parse_params k text s ≡ returns (asked k text).err a)
      × (parse_params k text' s' ≡ returns (asked k text').err b)
      × (view k a ≡ view k b)
parse_params-order k l text text' s s' m h e p ints =
    let h' = subst IsSorted (ap (λ v. v.tree) e) h in
    let (a, r, g) = given k s (asked k text) _ (parse_params-parse k l text s m h) in
    let (b, r', g') = given k s' (asked k text') _ (parse_params-parse k l text' s' m h') in
    (a, b, r, r', view-Stores k s s' a b _ _ e p ints g g')
