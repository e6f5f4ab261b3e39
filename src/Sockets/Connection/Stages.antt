-- ===== src/Sockets/Connection/Stages.antt =====
-- How far client.c and server.c are: what each has sent, has got and has printed at a stage.
use lkp.Sockets.Program.{
  exit, printf, getchar, send, read, press_any_key, hello_message_sent, message_from_server,
  message_from_client, buffer_text, Line, Program,
}
use lkp.Sockets.Main.{hello_client, hello_server}
use lkp.Sockets.Connection.{Side}
use lkp.Prelude.{ℕ, List, [], ◌∷◌, ◌++◌, length, ◌<◌, ◌≡◌}

-- What the program does next.
pub data ClientStage : Type 0 where
  opening pressing greeting confirming reading : ClientStage
  showing ended : List ℕ → ClientStage

pub data ServerStage : Type 0 where
  opens presses reads : ServerStage
  shows greets confirms ends : List ℕ → ServerStage

abbrev pub client_show : List ℕ → Program
client_show bs = printf (message_from_server (buffer_text bs)) (exit 0)

abbrev pub client_read : ℕ → Program
client_read fd = read fd 1024 client_show

abbrev pub client_next : ℕ → ClientStage → Program
client_next fd opening =
    printf press_any_key
      (getchar (send fd hello_client (λ _. printf hello_message_sent (client_read fd))))
client_next fd pressing =
    getchar (send fd hello_client (λ _. printf hello_message_sent (client_read fd)))
client_next fd greeting = send fd hello_client (λ _. printf hello_message_sent (client_read fd))
client_next fd confirming = printf hello_message_sent (client_read fd)
client_next fd reading = client_read fd
client_next fd (showing bs) = client_show bs
client_next fd (ended bs) = exit 0

abbrev pub client_printed : ClientStage → List Line
client_printed opening = []
client_printed pressing = press_any_key ∷ []
client_printed greeting = press_any_key ∷ []
client_printed confirming = press_any_key ∷ []
client_printed reading = press_any_key ∷ hello_message_sent ∷ []
client_printed (showing bs) = press_any_key ∷ hello_message_sent ∷ []
client_printed (ended bs) =
    press_any_key ∷ hello_message_sent ∷ message_from_server (buffer_text bs) ∷ []

abbrev pub server_greet : ℕ → Program
server_greet fd = send fd hello_server (λ _. printf hello_message_sent (exit 0))

abbrev pub server_show : ℕ → List ℕ → Program
server_show fd bs = printf (message_from_client (buffer_text bs)) (server_greet fd)

abbrev pub server_next : ℕ → ServerStage → Program
server_next fd opens = printf press_any_key (getchar (read fd 1024 (server_show fd)))
server_next fd presses = getchar (read fd 1024 (server_show fd))
server_next fd reads = read fd 1024 (server_show fd)
server_next fd (shows bs) = server_show fd bs
server_next fd (greets bs) = server_greet fd
server_next fd (confirms bs) = printf hello_message_sent (exit 0)
server_next fd (ends bs) = exit 0

abbrev pub server_printed : ServerStage → List Line
server_printed opens = []
server_printed presses = press_any_key ∷ []
server_printed reads = press_any_key ∷ []
server_printed (shows bs) = press_any_key ∷ []
server_printed (greets bs) = press_any_key ∷ message_from_client (buffer_text bs) ∷ []
server_printed (confirms bs) = press_any_key ∷ message_from_client (buffer_text bs) ∷ []
server_printed (ends bs) =
    press_any_key ∷ message_from_client (buffer_text bs) ∷ hello_message_sent ∷ []

abbrev pub client_at : ℕ → ClientStage → List ℕ → Side
client_at fd s i = record {
  program = client_next fd s;
  socket = fd;
  inbox = i;
  printed = client_printed s;
}

abbrev pub server_at : ℕ → ServerStage → List ℕ → Side
server_at fd s i = record {
  program = server_next fd s;
  socket = fd;
  inbox = i;
  printed = server_printed s;
}

-- The bytes each has sent and has read so far.
abbrev pub client_sent : ClientStage → List ℕ
client_sent opening = []
client_sent pressing = []
client_sent greeting = []
client_sent confirming = hello_client
client_sent reading = hello_client
client_sent (showing bs) = hello_client
client_sent (ended bs) = hello_client

abbrev pub client_got : ClientStage → List ℕ
client_got opening = []
client_got pressing = []
client_got greeting = []
client_got confirming = []
client_got reading = []
client_got (showing bs) = bs
client_got (ended bs) = bs

abbrev pub server_sent : ServerStage → List ℕ
server_sent opens = []
server_sent presses = []
server_sent reads = []
server_sent (shows bs) = []
server_sent (greets bs) = []
server_sent (confirms bs) = hello_server
server_sent (ends bs) = hello_server

abbrev pub server_got : ServerStage → List ℕ
server_got opens = []
server_got presses = []
server_got reads = []
server_got (shows bs) = bs
server_got (greets bs) = bs
server_got (confirms bs) = bs
server_got (ends bs) = bs

-- The turns that are left.
abbrev pub client_left : ClientStage → ℕ
client_left opening = 6
client_left pressing = 5
client_left greeting = 4
client_left confirming = 3
client_left reading = 2
client_left (showing bs) = 1
client_left (ended bs) = 0

abbrev pub server_left : ServerStage → ℕ
server_left opens = 6
server_left presses = 5
server_left reads = 4
server_left (shows bs) = 3
server_left (greets bs) = 2
server_left (confirms bs) = 1
server_left (ends bs) = 0

-- What was read is not empty.
abbrev pub ClientGot : ClientStage → Type 0
ClientGot (showing bs) = 0 < length bs
ClientGot (ended bs) = 0 < length bs
ClientGot opening = Unit {0}
ClientGot pressing = Unit {0}
ClientGot greeting = Unit {0}
ClientGot confirming = Unit {0}
ClientGot reading = Unit {0}

abbrev pub ServerGot : ServerStage → Type 0
ServerGot opens = Unit {0}
ServerGot presses = Unit {0}
ServerGot reads = Unit {0}
ServerGot (shows bs) = 0 < length bs
ServerGot (greets bs) = 0 < length bs
ServerGot (confirms bs) = 0 < length bs
ServerGot (ends bs) = 0 < length bs

-- What one has sent, the other has read or finds in its inbox.
abbrev pub Fits : ClientStage → List ℕ → ServerStage → List ℕ → Type 0
Fits c ci s si =
    (client_sent c ≡ server_got s ++ si)
    × (server_sent s ≡ client_got c ++ ci)
    × ClientGot c
    × ServerGot s
