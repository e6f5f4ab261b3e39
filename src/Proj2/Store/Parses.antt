-- ===== src/Proj2/Store/Parses.antt =====
-- The parser of Project_2/submission_new/proj2.c, against the numbers of its text.
use lkp.Proj2.Store.{
  and_then, Result, returns, faults, is_zero, store_all, strsep, parse_params, parse_tokens, Store,
}
use lkp.Proj2.Store.Stored.{stored, stored-IsSorted, store_all-stored, Stores-cons, Stores-nil}
use lkp.Prelude.Int.{negsuc, ℤ, pos}
use lkp.Proj2.Rb.{in_order}
use lkp.Proj2.Sorted.{IsSorted}
use lkp.Prelude.{sym, refl, false, if◌then◌else◌, [], Bool, ◌∷◌, true, ◌≡◌, ℕ, List}
use lkp.Proj2.Kernel.{Laws, Kernel}
use lkp.Proj2.Store.Parsed.{Parsed, Stores, parse}
use mathlib.Core.Path.{subst}

-- The result of a run: its error and what it leaves in the structures.
abbrev pub Gives : {T R : Type 0} → Kernel T R → Store T R → Parsed → Result T R → Type 0
Gives k s p (returns err s') = (err ≡ p.err) × Stores k s s' p.values
Gives k s p faults = ⊥

-- What parse_params is to find in the text.
abbrev pub asked : {T R : Type 0} → Kernel T R → List ℕ → Parsed
asked k text =
    if k.kstrdup then parse k.kstrtoint (strsep text) else record { values = []; err = negsuc 11 }

Gives-cons :
    {T R : Type 0} (k : Kernel T R) (l : Laws k) (v : ℤ) (s : Store T R) (p : Parsed)
    (r : Result T R)
    → IsSorted (in_order s.tree)
    → Gives k (stored k v s) p r
    → Gives k s (record { values = v ∷ p.values; err = p.err }) r
Gives-cons k l v s p (returns err s') h (e, g) = (e, Stores-cons k l v p.values s s' h g)
Gives-cons k l v s p faults h g = g

either :
    {T R : Type 0} (k : Kernel T R) (s : Store T R) (p q : Parsed) (a b : Result T R) (zero : Bool)
    → Gives k s p a
    → Gives k s q b
    → Gives k s (if zero then p else q) (if zero then a else b)
either k s p q a b true g h = g
either k s p q a b false g h = h

parse_tokens-parse :
    {T R : Type 0} (k : Kernel T R) (l : Laws k) (tokens : List (List ℕ)) (s : Store T R)
    → ((n : ℕ) → k.kmalloc n ≡ true)
    → IsSorted (in_order s.tree)
    → Gives k s (parse k.kstrtoint tokens) (parse_tokens k tokens (pos 0) s)
unfolding parse parse_tokens
parse_tokens-parse k l [] s m h = (refl, Stores-nil k s h)
parse_tokens-parse k l ([] ∷ tokens) s m h = parse_tokens-parse k l tokens s m h
parse_tokens-parse k l ((c ∷ p) ∷ tokens) s m h =
    let v = (k.kstrtoint (c ∷ p)).val in
    let rest = parse k.kstrtoint tokens in
    either k s (record { values = v ∷ rest.values; err = rest.err })
      (record { values = []; err = (k.kstrtoint (c ∷ p)).err })
      (and_then (store_all k v s) (parse_tokens k tokens (pos 0)))
      (returns ((k.kstrtoint (c ∷ p)).err) s) (is_zero ((k.kstrtoint (c ∷ p)).err))
      (Gives-cons k l v s rest (and_then (store_all k v s) (parse_tokens k tokens (pos 0))) h (
        subst (λ r. Gives k (stored k v s) rest (and_then r (parse_tokens k tokens (pos 0))))
          (sym (store_all-stored k v s m))
          (parse_tokens-parse k l tokens (stored k v s) m (stored-IsSorted k l v s h))))
      (refl, Stores-nil k s h)

-- Where every kmalloc gives memory and the search tree is in order, parse_params returns, with the
-- error of the first token that is not a number (0 without one), or -ENOMEM, with the structures as
-- they were, where kstrdup fails. The numbers before that token are then at the end of the linked
-- list in their order, in the hash table beside what it had, in the tree as a sorted set, and each
-- in the radix tree, whose first value for an index stays.
pub parse_params-parse :
    {T R : Type 0} (k : Kernel T R) (l : Laws k) (text : List ℕ) (s : Store T R)
    → ((n : ℕ) → k.kmalloc n ≡ true)
    → IsSorted (in_order s.tree)
    → Gives k s (asked k text) (parse_params k text s)
unfolding parse_params
parse_params-parse k l text s m h =
    either k s (parse k.kstrtoint (strsep text)) (record { values = []; err = negsuc 11 })
      (parse_tokens k (strsep text) (pos 0) s) (returns (negsuc 11) s) k.kstrdup
      (parse_tokens-parse k l (strsep text) s m h) (refl, Stores-nil k s h)
