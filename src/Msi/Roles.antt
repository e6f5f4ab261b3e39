-- ===== src/Msi/Roles.antt =====
-- How the two processes of Project_3_new/part4/part4.c come to be machine 1 and machine 2: the threads of
-- `server_socket` and `client_socket` up to the menu and the loop over the messages, as a step
-- relation over both processes. A connect reaches a socket that listens, also before it accepts.
pub mod Ordered
pub mod Final
pub mod Owns
pub mod Outcomes
pub mod Idle
use lkp.Prelude.{ℕ, Bool, true, false, ◌≡◌, ◌≢◌, suc, ◌+◌}

-- How far server_socket is: `checking` has accepted, `awaiting` reads the first message of machine 1.
pub data ServerAt : Type 0 where
  binding accepting checking awaiting serving : ServerAt

-- How far client_socket is: `refused` and `joined` have made the first connect, and have not yet
-- set mch_num; `retrying` is the loop of connects; `waiting` the loop until `addr` is not NULL.
pub data ClientAt : Type 0 where
  trying refused joined retrying choosing asking waiting in_menu : ClientAt

-- The globals, `mapped` for `addr` not NULL, whether the first message was sent, and both threads.
pub record Process : Type 0 where
  pub mch_num : ℕ
  pub mapped : Bool
  pub info_sent : Bool
  pub server : ServerAt
  pub client : ClientAt

abbrev pub begun : Process
begun = record { mch_num = 0; mapped = false; info_sent = false; server = binding; client = trying }

-- The client has a connection to the server of the other process.
abbrev pub is_connected : ClientAt → Bool
is_connected trying = false
is_connected refused = false
is_connected retrying = false
is_connected joined = true
is_connected choosing = true
is_connected asking = true
is_connected waiting = true
is_connected in_menu = true

-- A step of a thread of `x`, where `y` is the other process. A connect of the loop that fails changes
-- nothing.
pub data Move (x y : Process) : Process → Type 0 where
  listen : x.server ≡ binding → Move x y (record x { server = accepting })
  accept :
      x.server ≡ accepting
      → is_connected y.client ≡ true
      → Move x y (record x { server = checking })
  expect : x.server ≡ checking → x.mch_num ≡ 2 → Move x y (record x { server = awaiting })
  serve : x.server ≡ checking → x.mch_num ≢ 2 → Move x y (record x { server = serving })
  receive_info :
      x.server ≡ awaiting
      → y.info_sent ≡ true
      → Move x y (record x { server = serving; mapped = true })
  connect_fails : x.client ≡ trying → y.server ≡ binding → Move x y (record x { client = refused })
  connect : x.client ≡ trying → y.server ≢ binding → Move x y (record x { client = joined })
  set_first : x.client ≡ refused → Move x y (record x { client = retrying; mch_num = 1 })
  set_second : x.client ≡ joined → Move x y (record x { client = choosing; mch_num = 2 })
  reconnect : x.client ≡ retrying → y.server ≢ binding → Move x y (record x { client = choosing })
  ask : x.client ≡ choosing → x.mch_num ≡ 1 → Move x y (record x { client = asking })
  wait : x.client ≡ choosing → x.mch_num ≢ 1 → Move x y (record x { client = waiting })
  send_info :
      x.client ≡ asking → Move x y (record x { client = in_menu; mapped = true; info_sent = true })
  go_on : x.client ≡ waiting → x.mapped ≡ true → Move x y (record x { client = in_menu })

pub data Step (x y : Process) : Process → Process → Type 0 where
  first : {x' : Process} → Move x y x' → Step x y x' y
  second : {y' : Process} → Move y x y' → Step x y x y'

-- Runs of `n` steps.
pub data Runs (x y : Process) : ℕ → Process → Process → Type 0 where
  here : Runs x y 0 x y
  then_ :
      {n : ℕ} {x' y' x'' y'' : Process}
      → Runs x y n x' y'
      → Step x' y' x'' y''
      → Runs x y (suc n) x'' y''

-- No thread can take a step.
abbrev pub IsFinal : Process → Process → Type 0
IsFinal x y = (x' y' : Process) → ¬ Step x y x' y'

-- A process that was started alone: it listens, and its first connect has failed.
abbrev pub alone : Process
alone = record begun { mch_num = 1; server = accepting; client = retrying }
