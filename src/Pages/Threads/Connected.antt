-- ===== src/Pages/Threads/Connected.antt =====
-- When a program of Project_3/part3/part3.c is connected, and what it then sends.
use lkp.Msi.Setup.Connected.{client_setup_lem}
use lkp.Msi.Setup.{client_setup, connected}
use lkp.Msi.Setup
use lkp.Pages.Start
use lkp.Pages.Start.{sent, start_first, start_second, registered}
use lkp.Pages.Threads.{warned, Calls, Input, accepted, message, server_accept}
use lkp.Prelude.{
  ◌≤◌, ◌++◌, ◌≢◌, suc, ◌==◌, if◌then◌else◌, ℕ, List, none, some, true, false, ◌≡◌, ◌<◌, arith,
}

-- A program whose threads are created, and whose server_socket accepts a connection, with the
-- descriptor `fd`, whether bind and listen have succeeded or not. Its client_socket fails to connect
-- `attempts` times, and then connects: as machine 2 if that was at once.
pub record Connects (fuel : ℕ) (s : Calls) (i : Input) (attempts fd : ℕ) : Type 0 where
  pub creates : (n : ℕ) → s.sockets.pthread_create n ≡ true
  pub server_fd : ℕ
  pub has_server : s.sockets.server_fd ≡ some server_fd
  pub some_server : server_fd ≢ 0
  pub sets : s.sockets.setsockopt (some server_fd) ≡ true
  pub accepts : s.accept (some server_fd) ≡ some (some fd)
  pub some_fd : fd ≢ 0
  pub client_fd : ℕ
  pub has_client : s.sockets.client_fd ≡ some client_fd
  pub some_client : client_fd ≢ 0
  pub has_address : s.sockets.inet_aton ≡ true
  pub enough : attempts ≤ fuel
  pub connects : s.sockets.connect (some client_fd) i.cli_num attempts ≡ true
  pub fails : (j : ℕ) → j < attempts → s.sockets.connect (some client_fd) i.cli_num j ≡ false

abbrev pub order_at : ℕ → ℕ
order_at n = if n == 0 then 2 else 1

-- What bind and listen have printed.
abbrev pub warnings : Calls → Input → List Setup.Failed
warnings s i =
    warned (s.sockets.bind s.sockets.server_fd i.serv_num) Setup.bind_failed
    ++ warned (s.sockets.listen s.sockets.server_fd) Setup.listen_failed

pub server_accept_lem :
    {fuel : ℕ} {s : Calls} {i : Input} {n fd : ℕ}
    → Connects fuel s i n fd
    → server_accept s i.serv_num ≡ accepted (warnings s i) (some fd)
unfolding server_accept
server_accept_lem {s = s} {i = i} {fd = fd} k =
    let z : (k.server_fd == 0) ≡ false = ground (arith, k.some_server) in
    let w : (fd == 0) ≡ false = ground (arith, k.some_fd) in
    ground (arith, k.has_server, z, k.sets, k.accepts, w)

pub client_lem :
    {fuel : ℕ} {s : Calls} {i : Input} {n fd : ℕ}
    → (k : Connects fuel s i n fd)
    → client_setup fuel s.sockets i.cli_num ≡ some (connected (order_at n) (some k.client_fd) n)
client_lem {fuel} {s} {i} {n} k =
    client_setup_lem fuel s.sockets i.cli_num k.client_fd n k.has_client k.some_client k.has_address
      k.enough k.connects k.fails

pub message_lem :
    (fuel : ℕ) (s : Calls) (c : Start.Calls) (i : Input) (n fd : ℕ)
    → Connects fuel s i (suc n) fd
    → message fuel s c i ≡ (if i.is_set then sent c i.count else none)
unfolding message
message_lem fuel s c i n fd k = rw (client_lem k, server_accept_lem k) (ground arith)

pub message_second :
    (fuel : ℕ) (s : Calls) (c : Start.Calls) (i : Input) (fd : ℕ)
    → Connects fuel s i 0 fd
    → message fuel s c i ≡ none
unfolding message
message_second fuel s c i fd k = rw (client_lem k, server_accept_lem k) (ground arith)
