-- ===== src/Bus/Second.antt =====
-- The menu of machine 2 of Project_3/part4/part4.c, in client_socket. It does not raise BusRd at -1, and
-- its copying loop runs to data.length.
use lkp.Pages.Data.{all_pages}
use lkp.Prelude.Int.{pos}
use lkp.Msi.Data.{shared, MsiList}
use lkp.Bus.Access.{
  raise_rdx, raise_rd, chars_from, copy_at, byte_at, printed_all, offset_of, printed, flags_from,
  clear_at, flags_at, each_page, assign_all, has_page, on_stored, set_cur_var,
}
use lkp.Bus.Data.{refused, states_size, v, w, r, Turn, Menu, Globals}
use lkp.Prelude.{◌==◌, [], none, ◌∷◌, ◌||◌, leb, some, if◌then◌else◌, Option, ℕ, List}

-- The branch of -1: all pages are marked shared, and the first byte of each is printed.
unfoldable pub read_all : Globals → Turn
read_all x = on_stored (assign_all shared x) (λ y. printed_all y (chars_from y.pg_size (pos 0) y))

unfoldable pub read_flags : ℕ → Option MsiList → Globals → Turn
unfolding read_all
read_flags access none x = none
read_flags access (some f) x =
    if f.s || f.m
    then printed x (byte_at (offset_of access x) x)
    else if f.i
    then printed (raise_rd x) (byte_at (offset_of access x) x)
    else if access == all_pages
    then read_all x
    else some (x, [])

unfoldable pub command_r : ℕ → Globals → Turn
unfolding read_flags
command_r access x =
    let y = set_cur_var access x in
    if has_page x access then read_flags access (flags_at access x) y else some (y, refused ∷ [])

-- The branch of -1: the first bytes of all pages are cleared, and then the text is copied to all.
unfoldable pub write_all : List ℕ → Globals → Turn
write_all message x = on_stored (each_page clear_at x.pg_size (pos 0) x.length x) (λ y.
    on_stored (each_page (copy_at message) y.pg_size (pos 0) y.data_length y) (λ z. some (z, [])))

unfoldable pub write_flags : ℕ → List ℕ → Option MsiList → Globals → Turn
unfolding write_all
write_flags access message none x = none
write_flags access message (some f) x =
    if f.m
    then on_stored (clear_at (offset_of access x) x)
        (λ y. on_stored (copy_at message (offset_of access x) y) (λ z. some (z, [])))
    else if f.s || f.i
    then some (raise_rdx x, [])
    else if access == all_pages
    then write_all message x
    else some (x, [])

unfoldable pub command_w : ℕ → List ℕ → Globals → Turn
unfolding write_flags
command_w access message x =
    if has_page x access
    then write_flags access message (flags_at access x) x
    else some (x, refused ∷ [])

unfoldable pub command_v : Globals → Turn
command_v x =
    if leb x.pg_size states_size then some (x, flags_from x.pg_size 0 x.states_list) else none

unfoldable pub menu : Menu
unfolding command_r command_w command_v
menu (r access) x = command_r access x
menu (w access message) x = command_w access message x
menu v x = command_v x
