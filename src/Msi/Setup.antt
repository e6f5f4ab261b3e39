-- ===== src/Msi/Setup.antt =====
-- How the threads of Project_3_new/part4/part4.c make their sockets: `main`, and `server_socket` and
-- `client_socket` up to the connection.
pub mod Attempts
pub mod Connected
use lkp.Prelude.{
  ℕ, zero, suc, ◌+◌, List, [], ◌∷◌, Option, none, some, Bool, not, ◌==◌, if◌then◌else◌,
}
use lkp.Sockets.Program.{is_zero}

-- What the calls answer: `none` and `false` are -1 (0 too, for inet_aton). connect is given the
-- descriptor, the port and the number of the attempt, pthread_create the number of the call.
pub record Calls : Type 0 where
  pub server_fd : Option ℕ
  pub client_fd : Option ℕ
  pub setsockopt : Option ℕ → Bool
  pub bind : Option ℕ → ℕ → Bool
  pub listen : Option ℕ → Bool
  pub inet_aton : Bool
  pub connect : Option ℕ → ℕ → ℕ → Bool
  pub pthread_create : ℕ → Bool

-- The call that made a thread exit the process with status 1.
pub data Failed : Type 0 where
  socket_failed setsockopt_failed bind_failed listen_failed invalid_address : Failed

pub data Server : Type 0 where
  exits : Failed → Server
  listens : Option ℕ → Server

pub data Client : Type 0 where
  exits : Failed → Client
  connected : ℕ → Option ℕ → ℕ → Client  -- mch_num, the descriptor, the attempts that failed

-- server_socket up to its accept.
unfoldable pub server_setup : Calls → ℕ → Server
server_setup c port =
    if is_zero c.server_fd
    then Server.exits socket_failed
    else if not (c.setsockopt c.server_fd)
    then Server.exits setsockopt_failed
    else if not (c.bind c.server_fd port)
    then Server.exits bind_failed
    else if not (c.listen c.server_fd)
    then Server.exits listen_failed
    else listens c.server_fd

-- while (connect(...) < 0), from the n-th attempt on and with `fuel` attempts; `none`: all of them fail.
unfoldable pub retry : ℕ → (ℕ → Bool) → ℕ → Option ℕ
retry zero connect n = none
retry (suc fuel) connect n =
    let rest = retry fuel connect (suc n) in if connect n then some n else rest

abbrev pub as_first : Option ℕ → Option ℕ → Option Client
as_first fd none = none
as_first fd (some n) = some (connected 1 fd n)

-- client_socket up to its connection, with `fuel` attempts behind the first; `none`: it has none yet.
unfoldable pub client_setup : ℕ → Calls → ℕ → Option Client
unfolding retry
client_setup fuel c port =
    let later = as_first c.client_fd (retry fuel (c.connect c.client_fd port) 1) in
    if is_zero c.client_fd
    then some (Client.exits socket_failed)
    else if not c.inet_aton
    then some (Client.exits invalid_address)
    else if c.connect c.client_fd port 0
    then some (connected 2 c.client_fd 0)
    else later

pub data Main : Type 0 where
  create_failed : Main
  threads : Server → Option Client → Main

-- main, with argv and the C library's atoi; `none` where a thread is given NULL for its port, which
-- atoi reads.
unfoldable pub main : ℕ → (List ℕ → ℕ) → Calls → List (List ℕ) → Option Main
unfolding server_setup client_setup
main fuel atoi c [] = none
main fuel atoi c (name ∷ []) = none
main fuel atoi c (name ∷ serv_num ∷ []) = none
main fuel atoi c (name ∷ serv_num ∷ cli_num ∷ rest) =
    if not (c.pthread_create 0)
    then some create_failed
    else if not (c.pthread_create 1)
    then some create_failed
    else some (threads (server_setup c (atoi serv_num)) (client_setup fuel c (atoi cli_num)))
