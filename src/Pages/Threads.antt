-- ===== src/Pages/Threads.antt =====
-- `main` of Project_3/part3/part3.c with its threads: server_socket and client_socket, which run until
-- both have ended, and the page fault thread. Up to its connection, client_socket makes the calls that
-- the later program makes (Msi/Setup.antt), with `order` in place of mch_num.
pub mod Connected
pub mod Both
use lkp.Msi.Setup
use lkp.Msi.Setup.{Failed, Client, client_setup, connected}
use lkp.Sockets.Program.{is_zero}
use lkp.Pages.Data.{Process, Stuff}
use lkp.Pages.Start
use lkp.Pages.Start.{sent, start_first, start_second}
use lkp.Prelude.{
  ℕ, List, [], ◌∷◌, ◌++◌, Option, none, some, Bool, true, false, not, ◌==◌, if◌then◌else◌,
}

-- The calls on the sockets; accept answers `none` where it waits for ever, and `some none` for -1.
pub record Calls : Type 0 where
  pub sockets : Setup.Calls
  pub accept : Option ℕ → Option (Option ℕ)

pub data Accepted : Type 0 where
  exits : Failed → Accepted
  blocks : List Failed → Accepted
  refused : List Failed → Accepted  -- 0
  accepted : List Failed → Option ℕ → Accepted  -- new_socket, or -1

-- perror, and on
abbrev pub warned : Bool → Failed → List Failed
warned ok f = if ok then [] else f ∷ []

abbrev pub answered : List Failed → Option (Option ℕ) → Accepted
answered l none = blocks l
answered l (some fd) = if is_zero fd then refused l else accepted l fd

-- server_socket up to its accept: a failed bind and a failed listen are only printed.
unfoldable pub server_accept : Calls → ℕ → Accepted
server_accept c port =
    let s = c.sockets in
    if is_zero s.server_fd
    then Accepted.exits Setup.socket_failed
    else if not (s.setsockopt s.server_fd)
    then Accepted.exits Setup.setsockopt_failed
    else answered
        (warned (s.bind s.server_fd port) Setup.bind_failed
          ++ warned (s.listen s.server_fd) Setup.listen_failed)
        (c.accept s.server_fd)

-- How a thread ends, with what it made of the globals.
pub data Thread : Type 0 where
  exits : Thread
  waits : Thread
  ended : Process → Thread

-- The globals of a thread that sets nothing.
abbrev pub statics : Process
statics = record {
  mch = record { addr = 0; pg_size = 0; uffd = 0; length = 0 };
  page_size = 0;
  base = 0;
  mem = λ i. 0;
}

abbrev pub set_up : Option Process → Thread
set_up none = Thread.exits
set_up (some x) = ended x

-- server_socket, where `order` has its value at the end of accept and the user enters `count`.
abbrev pub server_thread : Start.Calls → ℕ → ℕ → Accepted → Thread
server_thread c order count (Accepted.exits f) = Thread.exits
server_thread c order count (blocks l) = waits
server_thread c order count (refused l) = ended statics
server_thread c order count (accepted l fd) =
    if order == 1 then set_up (start_first c count) else ended statics

-- What server_socket writes to the peer: nothing for a new_socket of -1.
abbrev pub written : Start.Calls → ℕ → ℕ → Accepted → Option Stuff
written c order count (accepted l (some fd)) = if order == 1 then sent c count else none
written c order count a = none

-- What a recv of the whole `stuff` finds, with MSG_WAITALL: the peer's, the end of the connection where
-- the peer's program has ended, or nothing.
pub data Heard : Type 0 where
  said : Stuff → Heard
  closed silent : Heard

-- The static recv_data, where recv has returned 0.
abbrev pub no_stuff : Stuff
no_stuff = record { addr = 0; pg_size = 0; uffd = 0; length = 0 }

-- The result of recv is not tested.
abbrev pub receives : Start.Calls → Heard → Thread
receives c silent = waits
receives c closed = set_up (start_second c no_stuff)
receives c (said recv_data) = set_up (start_second c recv_data)

-- client_socket, with what comes from the peer.
abbrev pub client_thread : Start.Calls → Heard → Option Client → Thread
client_thread c received none = waits
client_thread c received (some (Client.exits f)) = Thread.exits
client_thread c received (some (connected order fd n)) =
    if order == 2 then receives c received else ended statics

-- `order` behind the first connect; a client without a connection has failed once.
abbrev pub order_of : Option Client → ℕ
order_of none = 1
order_of (some (Client.exits f)) = 0
order_of (some (connected order fd n)) = order

pub data Outcome : Type 0 where
  exits : Outcome
  waits : Outcome
  menu_of : Process → Outcome

-- What comes from a program that writes the message and ends so: its exit closes the connection.
abbrev pub hears : Option Stuff → Outcome → Heard
hears (some d) p = said d
hears none Outcome.exits = closed
hears none Outcome.waits = silent
hears none (menu_of x) = silent

-- fault_handler_thread maps its page before its loop, and in the second that main sleeps before its menu.
unfoldable pub handler_page : Start.Calls → Process → Outcome
handler_page c x = elim (c.mmap 0 x.page_size) [ none ↦ Outcome.exits | some page ↦ menu_of x ]

-- Behind the joins: mch is data or recv_data, and the thread for page faults is created.
abbrev pub joined : Calls → Start.Calls → ℕ → Thread → Thread → Outcome
joined s c order Thread.exits t = Outcome.exits
joined s c order waits Thread.exits = Outcome.exits
joined s c order waits waits = Outcome.waits
joined s c order waits (ended y) = Outcome.waits
joined s c order (ended x) Thread.exits = Outcome.exits
joined s c order (ended x) waits = Outcome.waits
joined s c order (ended x) (ended y) =
    if not (s.sockets.pthread_create 2)
    then Outcome.exits
    else handler_page c (if order == 1 then x else if order == 2 then y else statics)

-- What a program is started with: the numbers of its ports, the page count that is entered, and
-- whether server_socket looks at `order` when client_socket has set it.
pub record Input : Type 0 where
  pub serv_num : ℕ
  pub cli_num : ℕ
  pub count : ℕ
  pub is_set : Bool

abbrev pub order_seen : Input → Option Client → ℕ
order_seen i o = if i.is_set then order_of o else 0

-- The message of a program to its peer.
unfoldable pub message : ℕ → Calls → Start.Calls → Input → Option Stuff
message fuel s c i =
    let o = client_setup fuel s.sockets i.cli_num in
    written c (order_seen i o) i.count (server_accept s i.serv_num)

-- main, up to its menu, with `fuel` attempts to connect behind the first.
unfoldable pub main : ℕ → Calls → Start.Calls → Input → Heard → Outcome
main fuel s c i received =
    let o = client_setup fuel s.sockets i.cli_num in
    let server = server_thread c (order_seen i o) i.count (server_accept s i.serv_num) in
    let client = client_thread c received o in
    if not (s.sockets.pthread_create 0)
    then Outcome.exits
    else if not (s.sockets.pthread_create 1)
    then Outcome.exits
    else joined s c (order_of o) server client
