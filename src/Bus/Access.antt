-- ===== src/Bus/Access.antt =====
-- The accesses of the menus of Project_3/part4/part4.c to the region and to the flags.
use lkp.Msi.Memory.{memcpy, memset}
use lkp.Pages.Access.{is_below}
use lkp.Pages.Data.{all_pages, add_long, to_int}
use lkp.Msi.Data.{update, MsiList}
use lkp.Prelude.Int.{negsuc, pos, ℤ}
use lkp.Bus.Data.{states_size, flags, char, Turn, Line, Globals}
use lkp.Prelude.{
  none, some, ℕ, Option, List, ◌==◌, ◌^◌, zero, ◌%◌, length, ◌∷◌, ◌||◌, ◌*◌, [], ltb, leb, ◌+◌,
  if◌then◌else◌, suc, Bool,
}

-- accessvar < pg_size || accessvar == -1
abbrev pub has_page : Globals → ℕ → Bool
has_page x access = ltb access x.pg_size || access == all_pages

-- states_list[accessvar]
unfoldable pub flags_at : ℕ → Globals → Option MsiList
flags_at access x =
    if ltb access states_size
    then some (x.states_list access)
    else if access == all_pages
    then some x.before
    else none

-- l += (accessvar * page_size), from 0
unfoldable pub offset_of : ℕ → Globals → ℤ
offset_of access x = to_int (access * x.page_size % 2 ^ 64)

-- c = addr[l]
unfoldable pub byte_at : ℤ → Globals → Option ℕ
byte_at (pos l) x = if ltb l x.length then some (x.mem l) else none
byte_at (negsuc l) x = none

abbrev pub printed : Globals → Option ℕ → Turn
printed x none = none
printed x (some c) = some (x, char c ∷ [])

abbrev pub with_char : Option ℕ → Option (List Line) → Option (List Line)
with_char none rest = none
with_char (some c) none = none
with_char (some c) (some rest) = some (char c ∷ rest)

-- while (k < length) { c = addr[k]; ...; k += page_size; }, with `n` rounds left
unfoldable pub chars_from : ℕ → ℤ → Globals → Option (List Line)
chars_from zero k x = if is_below k x.length then none else some []
chars_from (suc n) k x =
    let rest = with_char (byte_at k x) (chars_from n (to_int (add_long k x.page_size)) x) in
    if is_below k x.length then rest else some []

abbrev pub printed_all : Globals → Option (List Line) → Turn
printed_all x none = none
printed_all x (some out) = some (x, out)

-- memset(addr + l, 0, sizeof(page_size)), of eight bytes
unfoldable pub clear_at : ℤ → Globals → Option Globals
clear_at (pos l) x =
    if leb (l + 8) x.length then some (record x { mem = memset x.mem l 0 8 }) else none
clear_at (negsuc l) x = none

-- memcpy(addr + l, message, strlen(message))
unfoldable pub copy_at : List ℕ → ℤ → Globals → Option Globals
copy_at message (pos l) x =
    if leb (l + length message) x.length
    then some (record x { mem = memcpy x.mem l message })
    else none
copy_at message (negsuc l) x = none

abbrev pub on_stored {ℓ} : {A : Type ℓ} → Option Globals → (Globals → Option A) → Option A
on_stored none rest = none
on_stored (some x) rest = rest x

-- while (l < limit) { store(addr + l); l += page_size; }, with `n` rounds left
unfoldable pub each_page : (ℤ → Globals → Option Globals) → ℕ → ℤ → ℕ → Globals → Option Globals
each_page store zero l limit x = if is_below l limit then none else some x
each_page store (suc n) l limit x =
    let rest = on_stored (store l x) (each_page store n (to_int (add_long l x.page_size)) limit) in
    if is_below l limit then rest else some x

-- states_list[count] = f for count from `i` on, with `n` rounds left
unfoldable pub assign_from : MsiList → ℕ → ℕ → (ℕ → MsiList) → ℕ → MsiList
assign_from f zero i states = states
assign_from f (suc n) i states = assign_from f n (i + 1) (update states i f)

-- while (count < pg_size) states_list[count] = f
unfoldable pub assign_all : MsiList → Globals → Option Globals
unfolding assign_from
assign_all f x =
    if leb x.pg_size states_size
    then some (record x { states_list = assign_from f x.pg_size 0 x.states_list })
    else none

-- while (start < pg_size) the flags of a page are printed, with `n` rounds left
unfoldable pub flags_from : ℕ → ℕ → (ℕ → MsiList) → List Line
flags_from zero start states = []
flags_from (suc n) start states = flags start (states start) ∷ flags_from n (start + 1) states

abbrev pub raise_rd : Globals → Globals
raise_rd x = record x { bus_signal = record x.bus_signal { bus_rd = 1 } }

abbrev pub raise_rdx : Globals → Globals
raise_rdx x = record x { bus_signal = record x.bus_signal { bus_rdx = 1 } }

abbrev pub set_cur_var : ℕ → Globals → Globals
set_cur_var access x = record x { bus_signal = record x.bus_signal { cur_var = to_int access } }
