-- ===== src/Ex4/Init.antt =====
-- parse_params and ex4_init of EX_4/ex4.c.
pub mod Ends
pub mod Runs
use lkp.S2fs.Super.{enomem}
use lkp.Proj2.Store.{strsep, is_zero}
use lkp.Prelude.{none, some, [], ◌∷◌, ℕ, ◌++◌, zero, if◌then◌else◌, List, Option}
use lkp.Prelude.Int.{pos, negsuc, ℤ}
use lkp.Ex4.Entries.{
  store_value, missing_int_str, cleaning_up, test_linked_list, faults, returns,
  destroy_linked_list_and_free, Kernel, Globals, Result,
}

abbrev pub and_then : Result → (ℤ → Globals → Result) → Result
and_then (returns err g) f = f err g
and_then (faults g) f = faults g

-- The loop over what strsep gives, with `err` so far.
unfoldable pub parse_tokens : Kernel → List (List ℕ) → ℤ → Globals → Result
parse_tokens k [] err g = returns err g
parse_tokens k ([] ∷ tokens) err g = parse_tokens k tokens err g
parse_tokens k ((c ∷ p) ∷ tokens) err g =
    let number = k.kstrtoint (c ∷ p) in
    let rest = parse_tokens k tokens (pos 0) in
    if is_zero number.err
    then and_then (store_value k number.val g)
        (λ err' g'. if is_zero err' then rest g' else returns err' g')
    else returns number.err g

unfoldable pub parse_params : Kernel → List ℕ → Globals → Result
unfolding parse_tokens
parse_params k int_str g =
    if k.kstrdup then parse_tokens k (strsep int_str) (pos 0) g else returns enomem g

unfoldable pub cleanup : Globals → Result
cleanup g = destroy_linked_list_and_free g.mylist (record g { log = g.log ++ cleaning_up ∷ [] })

-- run_tests() where there is no error, and `out`
unfoldable pub out : ℤ → Globals → Result
unfolding cleanup
out err g =
    and_then (cleanup (if is_zero err then test_linked_list g else g)) (λ _ g'. returns err g')

-- The argument is the module parameter, `none` where it is not given.
unfoldable pub ex4_init : Kernel → Option (List ℕ) → Globals → Result
unfolding parse_params out
ex4_init k none g = returns (negsuc 0) (record g { log = g.log ++ missing_int_str ∷ [] })
ex4_init k (some int_str) g = and_then (parse_params k int_str g) out
