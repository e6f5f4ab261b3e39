-- ===== src/Pages/Access.antt =====
-- mem_read and mem_write of Project_3/part3/part3.c. `none` is an access outside the mapped region, or
-- a loop that is out of rounds.
use lkp.Msi.Memory.{memcpy, string_at, has_nul}
use lkp.Prelude.Int.{ℤ, negsuc, pos}
use lkp.Prelude.{
  zero, suc, length, ℕ, ◌%◌, ◌+◌, ◌^◌, ◌*◌, ◌-◌, leb, [], ◌&&◌, none, ltb, ◌==◌, ◌∷◌, if◌then◌else◌,
  some, Bool, List, Option,
}
use lkp.Pages.Data.{add_long, to_int, all_pages, Process}

-- The bytes [l, l + n) behind mch.addr are mapped.
abbrev pub is_mapped : Process → ℕ → ℕ → Bool
is_mapped x l n = (x.mch.addr == x.base) && leb (l + n) x.mch.length

-- printf("%s\n", &mch.addr[l]), which leaves the region where no NUL stands behind l
unfoldable pub print_at : Process → ℤ → Option (List ℕ)
print_at x (pos l) =
    if is_mapped x l 1 && has_nul (x.mch.length - l) x.mem l
    then some (string_at (x.mch.length - l) x.mem l)
    else none
print_at x (negsuc l) = none

-- memcpy(mch.addr + l, msg, strlen(msg))
unfoldable pub copy_to : ℤ → List ℕ → Process → Option Process
copy_to (pos l) msg x =
    if is_mapped x l (length msg) then some (record x { mem = memcpy x.mem l msg }) else none
copy_to (negsuc l) msg x = none

-- l < mch.length, where a negative `int` converts to a large number
abbrev pub is_below : ℤ → ℕ → Bool
is_below (pos l) n = ltb l n
is_below (negsuc l) n = ltb (2 ^ 64 - suc l) n

abbrev pub with_first : Option (List ℕ) → Option (List (List ℕ)) → Option (List (List ℕ))
with_first none rest = none
with_first (some s) none = none
with_first (some s) (some rest) = some (s ∷ rest)

-- The loop over all pages, with `n` rounds left.
unfoldable pub read_pages : ℕ → ℤ → Process → Option (List (List ℕ))
read_pages zero l x = if is_below l x.mch.length then none else some []
read_pages (suc n) l x =
    let rest = read_pages n (to_int (add_long l x.page_size)) x in
    if is_below l x.mch.length then with_first (print_at x l) rest else some []

-- The strings that are printed.
unfoldable pub mem_read : ℕ → Process → Option (List (List ℕ))
mem_read num x =
    if num == all_pages
    then read_pages x.mch.pg_size (pos 0) x
    else with_first (print_at x (to_int (num * x.page_size % 2 ^ 64))) (some [])

abbrev pub on_copied : Option Process → (Process → Option Process) → Option Process
on_copied none rest = none
on_copied (some x) rest = rest x

unfoldable pub write_pages : ℕ → ℤ → List ℕ → Process → Option Process
write_pages zero l msg x = if is_below l x.mch.length then none else some x
write_pages (suc n) l msg x =
    let rest = on_copied (copy_to l msg x) (write_pages n (to_int (add_long l x.page_size)) msg) in
    if is_below l x.mch.length then rest else some x

unfoldable pub mem_write : ℕ → List ℕ → Process → Option Process
mem_write num msg x =
    if num == all_pages
    then write_pages x.mch.pg_size (pos 0) msg x
    else copy_to (to_int (num * x.page_size % 2 ^ 64)) msg x
