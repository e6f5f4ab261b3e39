-- ===== src/Msi/Server.antt =====
-- The loop of `server_socket` in Project_3_new/part4/part4.c: what one message does.
use lkp.Prelude.{ℕ, Option, none, some, List, [], ◌∷◌, ◌&&◌, ◌||◌, ltb, ◌==◌, if◌then◌else◌}
use lkp.Prelude.Int.{ℤ, pos, negsuc}
use lkp.Msi.Data.{Machine, MsiList, ProcInfo, shared, invalid, max_size, set_msi}
use lkp.Msi.Client.{region_string, ends_in_region}

-- The if-else ladder at a page with the flags `v`; the second part is the bytes given to `send`.
-- `none`: strlen(flush) reads past the end of the mapping.
unfoldable pub serve : ℕ → MsiList → Machine → Option (Machine × Option (List ℕ))
serve p v x =
    if v.m && t.read_signal p == 1
    then (if ends_in_region x t.access_page
        then some (set_msi p shared x, some (region_string x t.access_page))
        else none)
    else if v.s && (t.bus_upgr p == 1 || t.bus_rdx p == 1)
    then some (set_msi p invalid x, none)
    else if v.i && t.read_signal p == 1
    then some (set_msi p shared x, some (0x20 ∷ []))
    else if (v.m || v.s) && (t.read_signal p == 0 || t.invalidate_signal p == 1)
    then some (set_msi p invalid x, none)
    else some (x, none)
  where
    open x use {temp_data as t}

-- list_MSI[recv_data.page_num], with the index checked.
unfoldable pub serve_at : ℤ → Machine → Option (Machine × Option (List ℕ))
unfolding serve
serve_at (pos p) x = if ltb p max_size then serve p (x.list_msi p) x else none
serve_at (negsuc n) x = none

-- read(new_socket, &recv_data, ...); temp_data = recv_data; and the ladder. `none` too where the read
-- takes a part of the struct: recv_data then mixes two messages.
unfoldable pub handle : ProcInfo → Machine → Option (Machine × Option (List ℕ))
unfolding serve_at
handle d x = if x.reads_whole then serve_at d.page_num (record x { temp_data = d }) else none
