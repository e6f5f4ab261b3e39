-- ===== src/Bus/Handler.antt =====
-- fault_handler_thread and update_bus of Project_3/part4/part4.c. Each page fault goes over the bus:
-- machine 1 sends its signals, machine 2 waits for those of machine 1.
use lkp.Msi.Memory.{memset}
use lkp.Pages.Handler.{is_none_read, is_negative_one, destination}
use lkp.Prelude.Int.{ℤ}
use lkp.Bus.Data.{BusInfo, Globals}
use lkp.Prelude.{◌-◌, ◌&&◌, not, ◌==◌, none, some, if◌then◌else◌, Bool, ℕ, Option}
pub mod Peers

-- What poll, read (of a descriptor) and the copy answer in one round, and the address of the fault.
pub record Event : Type 0 where
  pub nready : ℤ
  pub nread : ℕ → ℤ
  pub is_pagefault : Bool
  pub address : ℕ
  pub copies : ℕ → Bool

-- What a call of update_bus does: `sends` is the write to new_socket, `blocks` the recv of a message
-- that does not come.
pub data Update : Type 0 where
  sends : BusInfo → Globals → Update
  quiet : Globals → Update
  blocks : Update

abbrev received : Option BusInfo → Globals → Update
received none x = blocks
received (some m) x = quiet (record x { recv_signal = m })

-- `incoming` is the message that recv finds. The branches for BusRdX and BusUpgr only print.
unfoldable pub update_bus : BusInfo → Option BusInfo → Globals → Update
update_bus sigs incoming x =
    if (x.order == 1) && (sigs.bus_rd == 1)
    then sends sigs x
    else if (x.order == 2) && (sigs.bus_rd == 1)
    then received incoming x
    else quiet x

pub data Round : Type 0 where
  exits : Round
  waits : Round
  handled : Globals → Option BusInfo → Round

-- From the read of recv_signal.uffd on, with the message that update_bus sent. The page that is
-- copied holds zeros.
unfoldable pub handle_message : ℕ → Event → Option BusInfo → Globals → Round
handle_message base e sent x =
    let nread = e.nread x.recv_signal.uffd in
    let dst = destination e.address x.page_size in
    if is_none_read nread
    then exits
    else if is_negative_one nread
    then exits
    else if not e.is_pagefault
    then exits
    else if not (e.copies dst)
    then exits
    else handled (record x { mem = memset x.mem (dst - base) 0 x.page_size }) sent

abbrev updated : ℕ → Event → Update → Round
updated base e blocks = waits
updated base e (quiet x) = handle_message base e none x
updated base e (sends sigs x) = handle_message base e (some sigs) x

-- One round of the loop, for a region at `base`.
unfoldable pub fault_round : ℕ → Event → Option BusInfo → Globals → Round
unfolding update_bus handle_message
fault_round base e incoming x =
    if is_negative_one e.nready then exits else updated base e (update_bus x.bus_signal incoming x)

-- recv_signal.uffd = uffd, at the start of the thread
unfoldable pub start_thread : ℕ → Globals → Globals
start_thread uffd x = record x { recv_signal = record x.recv_signal { uffd = uffd } }
