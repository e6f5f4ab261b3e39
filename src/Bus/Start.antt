-- ===== src/Bus/Start.antt =====
-- How Project_3/part4/part4.c starts its menus: server_socket on machine 1 and client_socket on machine
-- 2, with the system calls of `Calls`. `none` is an exit, or a write past the end of states_list.
use lkp.Pages.Data.{Stuff}
use lkp.Msi.Data.{unset, invalid, MsiList}
use lkp.Bus.Access.{assign_all}
use lkp.Pages.Start.{registered, Calls}
use lkp.Prelude.Int.{pos}
use lkp.Bus.Data.{BusInfo, Globals}
use lkp.Bus.Handler.{start_thread}
use lkp.Prelude.{◌^◌, none, ◌%◌, some, ◌*◌, Option, ℕ}
pub mod Ready

-- A static bus_info
abbrev pub no_bus : BusInfo
no_bus = record { bus_rd = 0; bus_rdx = 0; bus_upgr = 0; cur_var = pos 0; uffd = 0 }

-- The globals as `menu` starts, over a region of zeros; `before` is what stands before states_list.
abbrev pub globals : ℕ → Calls → ℕ → Stuff → MsiList → Globals
globals order c data_length d before = record {
  order = order;
  pg_size = d.pg_size;
  length = d.length;
  page_size = c.page_size;
  data_length = data_length;
  mem = λ i. 0;
  states_list = λ p. unset;
  before = before;
  bus_signal = no_bus;
  recv_signal = no_bus;
}

-- while (initval < pg_size) states_list[initval] = I, behind the start of the thread
unfoldable pub init_states : Globals → Option Globals
init_states x = assign_all invalid x

abbrev started : ℕ → Calls → ℕ → MsiList → Option Stuff → Option Globals
started order c data_length before none = none
started order c data_length before (some d) =
    init_states (start_thread d.uffd (globals order c data_length d before))

-- order == 1: `d` is the data that was sent
unfoldable pub server_socket : Calls → Stuff → MsiList → Option Globals
unfolding init_states start_thread
server_socket c d before = started 1 c d.length before (registered c d.addr d)

-- order == 2: the global `data` is not written, so data.length is 0
unfoldable pub client_socket : Calls → Stuff → MsiList → Option Globals
unfolding init_states start_thread
client_socket c recv_data before =
    let len = recv_data.pg_size * c.page_size % 2 ^ 64 in
    elim (c.userfaultfd) [
      | none ↦ none
      | some fd ↦ elim (c.mmap recv_data.addr len) [
        | none ↦ none
        | some recv_addr ↦
            started 2 c 0 before (registered c recv_addr (record recv_data { length = len }))
      ]
    ]
