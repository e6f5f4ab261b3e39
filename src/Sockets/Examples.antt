-- ===== src/Sockets/Examples.antt =====
-- The socket programs over calls that succeed.
use lkp.Sockets.Buffer.{buffer_text-IsText}
use mathlib.Core.Path.{ap₂}
use lkp.Sockets.Lost.{lost-greeting, Lost}
use lkp.Sockets.Hello.{hello-exchange, Exchanged}
use lkp.Sockets.Pair.{main}
use lkp.Sockets.Connection.{
  take_in, move, play_turn, side, server_turn, rounds, play, client_turn, Turn,
}
use lkp.Sockets.Setup.{IsConnected, HasAccepted}
use lkp.Sockets.Main.{
  server_talk, server_main, client_talk, hello_client, client_main, hello_server,
}
use lkp.Sockets.Program.{Calls, Line, Program, printf, exit}
use lkp.Prelude.{
  ◌-◌, ℕ, List, [], ◌∷◌, ◌++◌, length, ◌<◌, ◌≡◌, ◌⊎◌, refl, arith, some, none, true, false, Option,
  Bool, ◌==◌, replicate,
}

abbrev is_three : Option ℕ → Bool
is_three none = false
is_three (some fd) = fd == 3

-- The socket is descriptor 3, the accepted connection 4, and only the port 5984 is free.
abbrev answers : Calls
answers = record {
  socket = some 3;
  setsockopt = is_three;
  inet_pton = true;
  connect = λ fd port. port == 5984;
  bind = λ fd port. port == 5984;
  listen = is_three;
  accept = λ fd. some 4;
}

answers-IsConnected : IsConnected answers 3
answers-IsConnected = (refl, refl, refl)

answers-HasAccepted : HasAccepted answers 3 4
answers-HasAccepted = (refl, (λ h. absurd (omega arith)), refl, refl, refl, refl)

-- The client begins, and reads of the server get five bytes at most.
abbrev client_first : List Turn
client_first =
    client_turn 0
    ∷ client_turn 0
    ∷ client_turn 0
    ∷ server_turn 0
    ∷ server_turn 0
    ∷ server_turn 4
    ∷ []

hello-exchange_example :
    ((l : Line) × (client_main answers ≡ printf l (exit 255)))
    ⊎ ((l : Line) × (server_main answers ≡ printf l (exit 1)))
    ⊎ ((fd gd ad : ℕ) × IsConnected answers fd
        × HasAccepted answers gd ad
        × ((bc rc bs rs : List ℕ) × (0 < length bc)
            × (0 < length bs)
            × (hello_server ≡ bc ++ rc)
            × (hello_client ≡ bs ++ rs)
            × (play
                  (client_first ++ rounds (replicate 12 (1023, 1023)))
                  (side fd (client_main answers), side ad (server_main answers))
                ≡ Exchanged fd ad bc rc bs rs)))
hello-exchange_example =
    hello-exchange answers answers refl client_first (replicate 12 (1023, 1023)) (omega arith)

-- The number of a string of one digit.
abbrev one_digit : List ℕ → ℕ
one_digit [] = 0
one_digit (d ∷ ds) = d - 48

lost-greeting_example :
    (p q : Program) × (main one_digit answers ([] ∷ [] ∷ [] ∷ (99 ∷ []) ∷ (50 ∷ []) ∷ []) ≡ some p)
    × (main one_digit answers ([] ∷ (115 ∷ []) ∷ [] ∷ [] ∷ (49 ∷ []) ∷ []) ≡ some q)
    × (play (client_first ++ rounds (replicate 11 (0, 0))) (side 3 p, side 4 q) ≡ Lost 3 4 [])
lost-greeting_example =
    lost-greeting one_digit answers answers 3 3 4 [] [] [] (49 ∷ []) (50 ∷ []) refl
      (λ h. absurd (omega arith)) answers-IsConnected (λ h. absurd (omega arith))
      answers-HasAccepted (λ h. absurd (omega arith)) client_first (replicate 11 (0, 0))
      (omega arith)

-- The client reads what the server sends in one piece.
greeted :
    play (rounds (replicate 12 (1023, 1023))) (side 3 (client_talk 3), side 4 (server_talk 4))
    ≡ Exchanged 3 4 hello_server [] hello_client []
unfolding play play_turn move take_in client_talk server_talk
greeted =
    ap₂ (λ a b. Exchanged 3 4 a [] b [])
      (buffer_text-IsText hello_server (search arith) (omega arith))
      (buffer_text-IsText hello_client (search arith) (omega arith))
