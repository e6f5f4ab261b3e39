-- ===== src/Proj2/Store/NoMemory.antt =====
-- parse_params of Project_2/submission_new/proj2.c where a kmalloc fails.
use lkp.Proj2.Store.{is_zero, Result, returns, and_then}
use lkp.Prelude.Int.{pos, ℤ}
use lkp.Prelude.{
  refl, ap, ◌∷◌, suc, zero, if◌then◌else◌, Bool, arith, false, ◌+◌, ◌<◌, true, ◌≡◌, ℕ, [], List,
  ◌≢◌,
}
use lkp.Proj2.Kernel.{Kernel}
use lkp.Proj2.Store.Parsed.{parse, Parsed}
use lkp.Proj2.Store.{
  parse_tokens, faults, strsep, radix_insert, Store, rb_tree_insert, store_hash_value, store_value,
  store_all, parse_params,
}

pub store_all-faults :
    {T R : Type 0} (k : Kernel T R) (v : ℤ) (s : Store T R) (i : ℕ)
    → i < 4
    → k.kmalloc (i + s.calls) ≡ false
    → store_all k v s ≡ faults
unfolding store_all store_value store_hash_value rb_tree_insert radix_insert
store_all-faults k v s zero h m = ground (arith, m)
store_all-faults k v s (suc zero) h m = ground (arith, m)
store_all-faults k v s (suc (suc zero)) h m = ground (arith, m)
store_all-faults k v s (suc (suc (suc zero))) h m = ground (arith, m)
store_all-faults k v s (suc (suc (suc (suc i)))) h m = absurd (omega arith)

abbrev IsNumber : Parsed → Type 0
IsNumber p = p.values ≢ []

first_number :
    {T R : Type 0} (zero : Bool) (p q : Parsed) (a b : Result T R)
    → q.values ≡ []
    → a ≡ faults
    → IsNumber (if zero then p else q)
    → (if zero then a else b) ≡ faults
first_number true p q a b h e n = e
first_number false p q a b h e n = absurd (n h)

parse_tokens-faults :
    {T R : Type 0} (k : Kernel T R) (tokens : List (List ℕ)) (s : Store T R)
    → ((v : ℤ) → store_all k v s ≡ faults)
    → IsNumber (parse k.kstrtoint tokens)
    → parse_tokens k tokens (pos 0) s ≡ faults
unfolding parse parse_tokens
parse_tokens-faults k [] s m n = absurd (n refl)
parse_tokens-faults k ([] ∷ tokens) s m n = parse_tokens-faults k tokens s m n
parse_tokens-faults k ((c ∷ p) ∷ tokens) s m n =
    let number = k.kstrtoint (c ∷ p) in
    let rest = parse k.kstrtoint tokens in
    first_number (is_zero number.err) (record { values = number.val ∷ rest.values; err = rest.err })
      (record { values = []; err = number.err })
      (and_then (store_all k number.val s) (parse_tokens k tokens (pos 0))) (returns (number.err) s)
      refl (ap (λ r. and_then r (parse_tokens k tokens (pos 0))) (m number.val)) n

-- Where kstrdup gives memory, the text has a number before its first error, and one of the next four
-- calls of kmalloc fails, parse_params writes through a null pointer.
pub parse_params-faults :
    {T R : Type 0} (k : Kernel T R) (text : List ℕ) (s : Store T R) (i : ℕ)
    → k.kstrdup ≡ true
    → IsNumber (parse k.kstrtoint (strsep text))
    → i < 4
    → k.kmalloc (i + s.calls) ≡ false
    → parse_params k text s ≡ faults
unfolding parse_params
parse_params-faults k text s i d n h m =
    ground (arith, d, parse_tokens-faults k (strsep text) s (λ v. store_all-faults k v s i h m) n)
