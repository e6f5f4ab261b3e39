-- ===== src/Proj2/Store/Stored.antt =====
-- One number of Project_2/submission_new/proj2.c put in the four structures, and then the others.
use mathlib.Core.List.{Perm, perm_middle}
use mathlib.Core.List.Perm
use mathlib.Core.Path.{subst}
use lkp.Proj2.Rb.{link-Links, link, Links, in_order, Rb}
use lkp.Prelude.{
  Bool-cases, inl, inr, ◌≢◌, ◌⊎◌, false, none, refl, ◌==◌, suc, arith, some, ap, Option, append-nil,
  append_assoc, sym, ◌∙◌, true, ◌+◌, [], ◌≡◌, ℕ, ◌∷◌, ◌++◌, List,
}
use lkp.Prelude.Int.{pos, ℤ}
use lkp.Proj2.Kernel.{Laws, Kernel}
use lkp.Proj2.Sorted.{insert_sorted-IsSorted, insert_sorted, IsSorted, sorted_set}
use lkp.Proj2.Store.Parsed.{Stores, looked_up}
use lkp.Proj2.Store.{
  rebalanced, returns, radix_insert, index_of, rb_tree_insert, store_hash_value, store_value, Store,
  store_all, insert_rb_tree,
}

-- The globals after a number, where every kmalloc gives memory.
abbrev pub stored : {T R : Type 0} → Kernel T R → ℤ → Store T R → Store T R
stored k v s = record {
  list = s.list ++ v ∷ [];
  table = k.hash_add (s.table) v;
  tree = insert_rb_tree k (s.tree) v;
  radix = k.radix_insert_entry (s.radix) (index_of v) v;
  calls = 4 + s.calls;
}

pub store_all-stored :
    {T R : Type 0} (k : Kernel T R) (v : ℤ) (s : Store T R)
    → ((n : ℕ) → k.kmalloc n ≡ true)
    → store_all k v s ≡ returns (pos 0) (stored k v s)
unfolding store_all store_value store_hash_value rb_tree_insert radix_insert
store_all-stored k v s m =
    ground (arith, m s.calls, m (suc s.calls), m (suc (suc s.calls)), m (suc (suc (suc s.calls))))

pub insert_rb_tree-insert_sorted :
    {T R : Type 0} (k : Kernel T R) (l : Laws k) (t : Rb) (v : ℤ)
    → IsSorted (in_order t)
    → in_order (insert_rb_tree k t v) ≡ insert_sorted v (in_order t)
unfolding insert_rb_tree
insert_rb_tree-insert_sorted k l t v s = linked (link t v) (link-Links t v s)
  where
    linked :
        (made : Option Rb)
        → Links t v made
        → in_order (rebalanced k t made) ≡ insert_sorted v (in_order t)
    linked none h = sym h
    linked (some t') h = l.in_order-rebalance t' ∙ h

pub looked_up-some : (key : ℕ) (w : ℤ) (vs : List ℤ) → looked_up key (some w) vs ≡ some w
unfolding looked_up
looked_up-some key w [] = refl
looked_up-some key w (v ∷ vs) = refl

looked_up-miss :
    (key : ℕ) (old : Option ℤ) (v : ℤ) (vs : List ℤ)
    → index_of v == key ≡ false
    → looked_up key old vs ≡ looked_up key old (v ∷ vs)
unfolding looked_up
looked_up-miss key none v vs h = ground (arith, h)
looked_up-miss key (some w) v vs h = looked_up-some key w vs

looked_up-hit :
    (key : ℕ) (v : ℤ) (vs : List ℤ)
    → index_of v == key ≡ true
    → looked_up key (some v) vs ≡ looked_up key none (v ∷ vs)
unfolding looked_up
looked_up-hit key v vs h = ground (arith, h)

pub same_key : (a b : ℕ) → a == b ≡ true → a ≡ b
same_key a b h = ground arith

other_key : (a b : ℕ) → a == b ≡ false → a ≢ b
other_key a b h = ground arith

radix-step :
    {T R : Type 0} (k : Kernel T R) (l : Laws k) (r : R) (v : ℤ) (vs : List ℤ) (key : ℕ)
    → looked_up key (k.radix_lookup (k.radix_insert_entry r (index_of v) v) key) vs
      ≡ looked_up key (k.radix_lookup r key) (v ∷ vs)
radix-step k l r v vs key = inserted (k.radix_lookup r key) refl (Bool-cases (index_of v == key))
  where
    inserted :
        (old : Option ℤ)
        → k.radix_lookup r key ≡ old
        → (index_of v == key ≡ true) ⊎ (index_of v == key ≡ false)
        → looked_up key (k.radix_lookup (k.radix_insert_entry r (index_of v) v) key) vs
          ≡ looked_up key (k.radix_lookup r key) (v ∷ vs)
    inserted old e (inr miss) =
        ap (λ o. looked_up key o vs)
          (l.lookup-insert_other r (index_of v) key v (other_key (index_of v) key miss))
        ∙ looked_up-miss key (k.radix_lookup r key) v vs miss
    inserted none e (inl hit) =
        let at = same_key (index_of v) key hit in
        ap (λ o. looked_up key o vs)
          (ap (k.radix_lookup (k.radix_insert_entry r (index_of v) v)) (sym at)
            ∙ l.lookup-insert_same r (index_of v) v (ap (k.radix_lookup r) at ∙ e))
        ∙ looked_up-hit key v vs hit
        ∙ ap (λ o. looked_up key o (v ∷ vs)) (sym e)
    inserted (some w) e (inl hit) =
        let at = same_key (index_of v) key hit in
        ap (λ o. looked_up key o vs)
          (ap (λ t. k.radix_lookup t key)
              (l.insert_present r (index_of v) v w (ap (k.radix_lookup r) at ∙ e))
            ∙ e)
        ∙ looked_up-some key w vs
        ∙ sym (looked_up-some key w (v ∷ vs))
        ∙ ap (λ o. looked_up key o (v ∷ vs)) (sym e)

pub Stores-nil :
    {T R : Type 0} (k : Kernel T R) (s : Store T R) → IsSorted (in_order s.tree) → Stores k s s []
unfolding sorted_set looked_up
Stores-nil k s h = record {
  list-append = sym (append-nil s.list);
  table-Perm =
      subst (Perm (k.hash_walk s.table)) (sym (append-nil (k.hash_walk s.table)))
        (Perm.refl (k.hash_walk s.table));
  tree-sorted_set = refl;
  tree-IsSorted = h;
  radix-looked_up = λ key. refl;
}

pub Stores-cons :
    {T R : Type 0} (k : Kernel T R) (l : Laws k) (v : ℤ) (vs : List ℤ) (s s' : Store T R)
    → IsSorted (in_order s.tree)
    → Stores k (stored k v s) s' vs
    → Stores k s s' (v ∷ vs)
unfolding sorted_set
Stores-cons k l v vs s s' h r = record {
  list-append = r.list-append ∙ append_assoc s.list (v ∷ []) vs;
  table-Perm = Perm.trans r.table-Perm (
      Perm.trans (Perm.append_right vs (l.hash_add-Perm s.table v))
        (Perm.symm (perm_middle (k.hash_walk s.table) vs)));
  tree-sorted_set =
      r.tree-sorted_set ∙ ap (λ t. sorted_set t vs) (insert_rb_tree-insert_sorted k l s.tree v h);
  tree-IsSorted = r.tree-IsSorted;
  radix-looked_up = λ key. r.radix-looked_up key ∙ radix-step k l s.radix v vs key;
}

pub stored-IsSorted :
    {T R : Type 0} (k : Kernel T R) (l : Laws k) (v : ℤ) (s : Store T R)
    → IsSorted (in_order s.tree)
    → IsSorted (in_order (insert_rb_tree k s.tree v))
stored-IsSorted k l v s h =
    subst IsSorted (sym (insert_rb_tree-insert_sorted k l s.tree v h))
      (insert_sorted-IsSorted v (in_order s.tree) h)
