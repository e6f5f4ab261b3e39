-- ===== src/Sockets/Pair/Turns.antt =====
-- Two processes of part22.c at the ends of a connection, turn by turn.
use lkp.Sockets.Connection.Turns.{move-read_wait, move-read_end}
use lkp.Sockets.Program.{
  read, send, client_socket_with_port, string_sending, server_socket_with_port, Line, Program, exit,
  printf, getchar, press_any_key, passed_inet, message_from_server, buffer_text,
}
use lkp.Sockets.Pair.{hello}
use lkp.Sockets.Connection.{has_ended, or_stay, Both, play_turn, client_turn, server_turn, Turn}
use lkp.Prelude.{
  false, ◌∙◌, suc, none, ap, Option, ℕ, List, [], ◌∷◌, ◌<◌, ◌≤◌, ◌≡◌, ◌≢◌, refl, arith, ◌+◌, inl,
  inr, ◌⊎◌,
}

-- What each does next.
pub data Receiver : Type 0 where
  naming addressing opening pressing receiving showing ended : Receiver

pub data Sender : Type 0 where
  names opens presses sends notes ends : Sender

abbrev pub show : List ℕ → Program
show bs = printf (message_from_server (buffer_text bs)) (exit 0)

abbrev pub note : Option ℕ → Program
note j = printf (string_sending hello j 0) (exit 0)

abbrev pub receiver_next : ℕ → Receiver → Program
receiver_next fd naming =
    printf (client_socket_with_port 5984)
      (printf passed_inet (printf press_any_key (getchar (read fd 4096 show))))
receiver_next fd addressing =
    printf passed_inet (printf press_any_key (getchar (read fd 4096 show)))
receiver_next fd opening = printf press_any_key (getchar (read fd 4096 show))
receiver_next fd pressing = getchar (read fd 4096 show)
receiver_next fd receiving = read fd 4096 show
receiver_next fd showing = show []
receiver_next fd ended = exit 0

abbrev pub receiver_printed : Receiver → List Line
receiver_printed naming = []
receiver_printed addressing = client_socket_with_port 5984 ∷ []
receiver_printed opening = client_socket_with_port 5984 ∷ passed_inet ∷ []
receiver_printed pressing = client_socket_with_port 5984 ∷ passed_inet ∷ press_any_key ∷ []
receiver_printed receiving = client_socket_with_port 5984 ∷ passed_inet ∷ press_any_key ∷ []
receiver_printed showing = client_socket_with_port 5984 ∷ passed_inet ∷ press_any_key ∷ []
receiver_printed ended =
    client_socket_with_port 5984
    ∷ passed_inet
    ∷ press_any_key
    ∷ message_from_server (buffer_text [])
    ∷ []

abbrev pub sender_next : Sender → Program
sender_next names =
    printf (server_socket_with_port 5984) (printf press_any_key (getchar (send 0 hello note)))
sender_next opens = printf press_any_key (getchar (send 0 hello note))
sender_next presses = getchar (send 0 hello note)
sender_next sends = send 0 hello note
sender_next notes = note none
sender_next ends = exit 0

abbrev pub sender_printed : Sender → List Line
sender_printed names = []
sender_printed opens = server_socket_with_port 5984 ∷ []
sender_printed presses = server_socket_with_port 5984 ∷ press_any_key ∷ []
sender_printed sends = server_socket_with_port 5984 ∷ press_any_key ∷ []
sender_printed notes = server_socket_with_port 5984 ∷ press_any_key ∷ []
sender_printed ends =
    server_socket_with_port 5984 ∷ press_any_key ∷ string_sending hello none 0 ∷ []

-- Nothing ever comes over the connection.
abbrev pub at_ends : ℕ → ℕ → Receiver → Sender → Both
at_ends fd ad r s = (
  record { program = receiver_next fd r; socket = fd; inbox = []; printed = receiver_printed r },
  record { program = sender_next s; socket = ad; inbox = []; printed = sender_printed s },
)

abbrev pub receiver_left : Receiver → ℕ
receiver_left naming = 6
receiver_left addressing = 5
receiver_left opening = 4
receiver_left pressing = 3
receiver_left receiving = 2
receiver_left showing = 1
receiver_left ended = 0

abbrev pub sender_left : Sender → ℕ
sender_left names = 5
sender_left opens = 4
sender_left presses = 3
sender_left sends = 2
sender_left notes = 1
sender_left ends = 0

-- What a turn of the receiver leads to: it waits only where the sender has not ended.
abbrev Received : ℕ → ℕ → ℕ → Receiver → Sender → Type 0
Received k fd ad r s =
    (r' : Receiver) × (play_turn (client_turn k) (at_ends fd ad r s) ≡ at_ends fd ad r' s)
    × (receiver_left r' ≤ receiver_left r)
    × ((receiver_left r' < receiver_left r) ⊎ (receiver_left r ≡ 0) ⊎ (0 < sender_left s))

receiver_waits :
    (k fd ad : ℕ) (s : Sender)
    → has_ended (sender_next s) ≡ false
    → 0 < sender_left s
    → Received k fd ad receiving s
unfolding play_turn
receiver_waits k fd ad s e l = (
  receiving,
  ap (or_stay (at_ends fd ad receiving s)) (
      move-read_wait k 4096 show (at_ends fd ad receiving s).0 (at_ends fd ad receiving s).1 refl
        e),
  omega arith,
  inr (inr l),
)

receiver_turn : (k fd ad : ℕ) (r : Receiver) (s : Sender) → Received k fd ad r s
unfolding play_turn
receiver_turn k fd ad naming s = (addressing, refl, omega arith, inl (omega arith))
receiver_turn k fd ad addressing s = (opening, refl, omega arith, inl (omega arith))
receiver_turn k fd ad opening s = (pressing, refl, omega arith, inl (omega arith))
receiver_turn k fd ad pressing s = (receiving, refl, omega arith, inl (omega arith))
receiver_turn k fd ad receiving ends = (
  showing,
  ap (or_stay (at_ends fd ad receiving ends)) (
      move-read_end k 4096 show (at_ends fd ad receiving ends).0 (at_ends fd ad receiving ends).1
        refl refl),
  omega arith,
  inl (omega arith),
)
receiver_turn k fd ad receiving names = receiver_waits k fd ad names refl (omega arith)
receiver_turn k fd ad receiving opens = receiver_waits k fd ad opens refl (omega arith)
receiver_turn k fd ad receiving presses = receiver_waits k fd ad presses refl (omega arith)
receiver_turn k fd ad receiving sends = receiver_waits k fd ad sends refl (omega arith)
receiver_turn k fd ad receiving notes = receiver_waits k fd ad notes refl (omega arith)
receiver_turn k fd ad showing s = (ended, refl, omega arith, inl (omega arith))
receiver_turn k fd ad ended s = (ended, refl, omega arith, inr (inl refl))

sender_turn :
    (k fd ad : ℕ) (r : Receiver) (s : Sender)
    → ad ≢ 0
    → (s' : Sender) × (play_turn (server_turn k) (at_ends fd ad r s) ≡ at_ends fd ad r s')
      × ((sender_left s' < sender_left s) ⊎ ((sender_left s ≡ 0) × (sender_left s' ≡ 0)))
unfolding play_turn
sender_turn k fd ad r names h = (opens, refl, inl (omega arith))
sender_turn k fd ad r opens h = (presses, refl, inl (omega arith))
sender_turn k fd ad r presses h = (sends, refl, inl (omega arith))
sender_turn k fd ad r sends h = (notes, ground arith, inl (omega arith))
sender_turn k fd ad r notes h = (ends, refl, inl (omega arith))
sender_turn k fd ad r ends h = (ends, refl, inr (refl, refl))

abbrev pub Still : ℕ → ℕ → ℕ → Both → Type 0
Still fd ad n b =
    (r : Receiver) × (s : Sender) × (b ≡ at_ends fd ad r s) × (receiver_left r + sender_left s < n)

pub turn-Still :
    (fd ad : ℕ)
    → ad ≢ 0
    → (n : ℕ) (t : Turn) (b : Both) → Still fd ad n b
    → Still fd ad n (play_turn t b)
turn-Still fd ad h n (client_turn k) b (r, s, e, l) =
    let (r', e', l', m) = receiver_turn k fd ad r s in
    (r', s, ap (play_turn (client_turn k)) e ∙ e', omega (arith, l, l'))
turn-Still fd ad h n (server_turn k) b (r, s, e, l) =
    let (s', e', m) = sender_turn k fd ad r s h in
    (r, s', ap (play_turn (server_turn k)) e ∙ e', omega (arith, l, m))

pub round-Still :
    (fd ad : ℕ)
    → ad ≢ 0
    → (n k m : ℕ) (b : Both) → Still fd ad (suc (suc n)) b
    → Still fd ad (suc n) (play_turn (server_turn m) (play_turn (client_turn k) b))
round-Still fd ad h n k m b (r, s, e, l) =
    let (r', e', l', w) = receiver_turn k fd ad r s in
    let (s', e'', w') = sender_turn m fd ad r' s h in
    (
      r',
      s',
      ap (λ b'. play_turn (server_turn m) (play_turn (client_turn k) b')) e
          ∙ ap (play_turn (server_turn m)) e'
          ∙ e'',
      omega (arith, l, l', w, w'),
    )
