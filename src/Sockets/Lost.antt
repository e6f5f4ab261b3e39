-- ===== src/Sockets/Lost.antt =====
-- Two processes of part22.c run against each other, started as the source means it: the server with
-- "s" and the process number 1, the client with "c" and another number.
use lkp.Sockets.Buffer.{buffer_text-IsText}
use lkp.Sockets.Connection.Rounds.{ends-Before}
use lkp.Sockets.Pair.Turns.{
  notes, sends, Still, addressing, at_ends, ended, ends, names, naming, opening, opens, presses,
  pressing, receiver_left, receiver_next, receiving, round-Still, sender_left, sender_next, showing,
  turn-Still,
}
use lkp.Sockets.Connection.{side, rounds, play, Both, Turn}
use lkp.Sockets.Program.{
  Program, Calls, exit, press_any_key, passed_inet, message_from_server, client_socket_with_port,
  server_socket_with_port, string_sending,
}
use lkp.Sockets.Setup.{IsConnected, HasAccepted}
use lkp.Sockets.Pair.{
  hello, main, send_hello, receive_hello, server_socket, client_socket, select_function,
}
use lkp.Prelude.{
  ◌∙◌, ℕ, List, [], ◌∷◌, ◌++◌, length, ◌<◌, ◌≤◌, ◌≡◌, ◌≢◌, refl, arith, ◌+◌, ap, some, none,
}

server_begins :
    (atoi : List ℕ → ℕ) (s : Calls) (gd ad : ℕ) (name size other one : List ℕ)
    → atoi one ≡ 1
    → HasAccepted s gd ad
    → main atoi s (name ∷ (115 ∷ []) ∷ size ∷ other ∷ one ∷ []) ≡ some (sender_next names)
unfolding main select_function server_socket send_hello
server_begins atoi s gd ad name size other one h k = ground arith

client_begins :
    (atoi : List ℕ → ℕ) (c : Calls) (fd : ℕ) (name size other two : List ℕ)
    → atoi two ≢ 1
    → IsConnected c fd
    → fd ≢ 0
    → main atoi c (name ∷ other ∷ size ∷ (99 ∷ []) ∷ two ∷ []) ≡ some (receiver_next fd naming)
unfolding main select_function client_socket receive_hello
client_begins atoi c fd name size other two h k z = ground arith

-- Both programs at their ends: the client has printed `text`.
abbrev pub Lost : ℕ → ℕ → List ℕ → Both
Lost fd ad text = (
  record {
    program = exit 0;
    socket = fd;
    inbox = [];
    printed =
        client_socket_with_port 5984 ∷ passed_inet ∷ press_any_key ∷ message_from_server text ∷ [];
  },
  record {
    program = exit 0;
    socket = ad;
    inbox = [];
    printed = server_socket_with_port 5984 ∷ press_any_key ∷ string_sending hello none 0 ∷ [];
  },
)

at_end : (fd ad : ℕ) (b : Both) → Still fd ad 1 b → b ≡ Lost fd ad []
at_end fd ad b (naming, s, e, l) = absurd (omega arith)
at_end fd ad b (addressing, s, e, l) = absurd (omega arith)
at_end fd ad b (opening, s, e, l) = absurd (omega arith)
at_end fd ad b (pressing, s, e, l) = absurd (omega arith)
at_end fd ad b (receiving, s, e, l) = absurd (omega arith)
at_end fd ad b (showing, s, e, l) = absurd (omega arith)
at_end fd ad b (ended, names, e, l) = absurd (omega arith)
at_end fd ad b (ended, opens, e, l) = absurd (omega arith)
at_end fd ad b (ended, presses, e, l) = absurd (omega arith)
at_end fd ad b (ended, sends, e, l) = absurd (omega arith)
at_end fd ad b (ended, notes, e, l) = absurd (omega arith)
at_end fd ad b (ended, ends, e, l) = e ∙ ap (Lost fd ad) (buffer_text-IsText [] tt (omega arith))

-- The calls to connect the two processes succeed, and neither descriptor of the connection is 0. They
-- take turns in any order, with eleven rounds of a turn for each at the end. Then both have ended
-- with status 0, the server has sent its greeting to descriptor 0, and the client has read nothing and
-- prints the empty text.
pub lost-greeting :
    (atoi : List ℕ → ℕ) (c s : Calls) (fd gd ad : ℕ) (name size other one two : List ℕ)
    → atoi one ≡ 1
    → atoi two ≢ 1
    → IsConnected c fd
    → fd ≢ 0
    → HasAccepted s gd ad
    → ad ≢ 0
    → (ts : List Turn) (rounds_then : List (ℕ × ℕ)) → 11 ≤ length rounds_then
    → (p q : Program) × (main atoi c (name ∷ other ∷ size ∷ (99 ∷ []) ∷ two ∷ []) ≡ some p)
      × (main atoi s (name ∷ (115 ∷ []) ∷ size ∷ other ∷ one ∷ []) ≡ some q)
      × (play (ts ++ rounds rounds_then) (side fd p, side ad q) ≡ Lost fd ad [])
lost-greeting atoi c s fd gd ad name size other one two h h' k z k' z' ts us l =
    let twelve : receiver_left naming + sender_left names < 12 = omega arith in
    let start : Both = at_ends fd ad naming names in
    (
      receiver_next fd naming,
      sender_next names,
      client_begins atoi c fd name size other two h' k z,
      server_begins atoi s gd ad name size other one h k',
      at_end fd ad (play (ts ++ rounds us) start) (
          ends-Before (Still fd ad) (turn-Still fd ad z') (round-Still fd ad z') 11 ts us start l
            (naming, names, refl, twelve)),
    )
