-- ===== src/Bus/Threads.antt =====
-- `main` of Project_3/part4/part4.c with its threads, each of which may come to a menu. Up to accept and
-- connect, the threads make the calls of those of Project_3/part3/part3.c (Pages/Threads.antt).
pub mod Both
use lkp.Msi.Data.{MsiList}
use lkp.Msi.Setup
use lkp.Msi.Setup.{Client, client_setup, connected}
use lkp.Pages.Data.{Stuff}
use lkp.Pages.Start
use lkp.Pages.Start.{sent}
use lkp.Pages.Threads.{
  Calls, Accepted, blocks, refused, accepted, server_accept, Input, order_of, order_seen, Heard,
  said, closed, silent, no_stuff,
}
use lkp.Bus.Data.{Globals}
use lkp.Bus.Start.{server_socket, client_socket}
use lkp.Prelude.{ℕ, Option, none, some, Bool, not, ◌==◌, if◌then◌else◌}

-- How far a thread comes: `stops` is an exit, or a write past the end of states_list.
pub data Thread : Type 0 where
  stops waits returns : Thread
  in_menu : Globals → Thread

-- pthread_create, and the page that fault_handler_thread maps before its loop.
abbrev pub opened : Calls → Start.Calls → Option Globals → Thread
opened s c none = stops
opened s c (some x) =
    if not (s.sockets.pthread_create 2)
    then stops
    else elim (c.mmap 0 c.page_size) [ none ↦ stops | some page ↦ in_menu x ]

abbrev pub opens_first : Calls → Start.Calls → MsiList → Option Stuff → Thread
opens_first s c before none = stops
opens_first s c before (some d) = opened s c (server_socket c d before)

-- server_socket, where `order` has its value at the end of accept and the user enters `count`.
abbrev pub server_thread : Calls → Start.Calls → MsiList → ℕ → ℕ → Accepted → Thread
server_thread s c before order count (Accepted.exits f) = stops
server_thread s c before order count (blocks l) = waits
server_thread s c before order count (refused l) = returns
server_thread s c before order count (accepted l fd) =
    if order == 1 then opens_first s c before (sent c count) else returns

-- recv of the whole `stuff`, with MSG_WAITALL; its result is not tested
abbrev pub opens_second : Calls → Start.Calls → MsiList → Heard → Thread
opens_second s c before silent = waits
opens_second s c before closed = opened s c (client_socket c no_stuff before)
opens_second s c before (said recv_data) = opened s c (client_socket c recv_data before)

-- client_socket, with what comes from the peer.
abbrev pub client_thread : Calls → Start.Calls → MsiList → Heard → Option Client → Thread
client_thread s c before received none = waits
client_thread s c before received (some (Client.exits f)) = stops
client_thread s c before received (some (connected order fd n)) =
    if order == 2 then opens_second s c before received else returns

-- What main comes to: it returns where both threads do, and a menu is open where one has come to it.
abbrev pub joined : Thread → Thread → Thread
joined stops t = stops
joined waits stops = stops
joined waits waits = waits
joined waits returns = waits
joined waits (in_menu y) = in_menu y
joined returns waits = waits
joined returns stops = stops
joined returns returns = returns
joined returns (in_menu y) = in_menu y
joined (in_menu x) stops = stops
joined (in_menu x) waits = in_menu x
joined (in_menu x) returns = in_menu x
joined (in_menu x) (in_menu y) = in_menu x

-- What comes from a program that writes the message and comes so far: its end closes the connection.
abbrev pub hears : Option Stuff → Thread → Heard
hears (some d) p = said d
hears none stops = closed
hears none returns = closed
hears none waits = silent
hears none (in_menu x) = silent

unfoldable pub main : ℕ → Calls → Start.Calls → MsiList → Input → Heard → Thread
main fuel s c before i received =
    let o = client_setup fuel s.sockets i.cli_num in
    let server = server_thread s c before (order_seen i o) i.count (server_accept s i.serv_num) in
    let client = client_thread s c before received o in
    if not (s.sockets.pthread_create 0)
    then stops
    else if not (s.sockets.pthread_create 1)
    then stops
    else joined server client
