-- ===== src/Sockets/Connection/Greeting.antt =====
-- client.c and server.c at the two ends of a connection, turn by turn: they never both wait, so that
-- a round of turns leaves them fewer.
use mathlib.Core.Path.{ap₂, subst}
use lkp.Sockets.Connection.Turns.{
  server_move, client_move, Before, Further, ServerStays, ClientStays,
}
use lkp.Sockets.Connection.Stages.{
  reads, reading, presses, confirming, opens, greeting, pressing, ends, client_got, confirms,
  opening, greets, ended, server_got, shows, showing, client_sent, server_sent, server_left,
  client_left, server_at, client_at, Fits, ServerStage, ClientStage,
}
use lkp.Sockets.Connection.{client_turn, server_turn, play_turn, Turn, Both}
use lkp.Prelude.{ap, ◌∙◌, sym, suc, ℕ, List, [], ◌++◌, ◌<◌, ◌≤◌, ◌≡◌, inl, inr, arith, ◌+◌}

unsent-client : (c : ClientStage) → client_sent c ≡ [] → 4 ≤ client_left c
unsent-client opening h = omega arith
unsent-client pressing h = omega arith
unsent-client greeting h = omega arith
unsent-client confirming h = absurd (ground (arith, h))
unsent-client reading h = absurd (ground (arith, h))
unsent-client (showing bs) h = absurd (ground (arith, h))
unsent-client (ended bs) h = absurd (ground (arith, h))

unsent-server : (s : ServerStage) → server_sent s ≡ [] → 2 ≤ server_left s
unsent-server opens h = omega arith
unsent-server presses h = omega arith
unsent-server reads h = omega arith
unsent-server (shows bs) h = omega arith
unsent-server (greets bs) h = omega arith
unsent-server (confirms bs) h = absurd (ground (arith, h))
unsent-server (ends bs) h = absurd (ground (arith, h))

-- The client waits only where the server has sent nothing, and then the server does not wait.
stuck-ends :
    (c : ClientStage) (ci : List ℕ) (s : ServerStage) (si : List ℕ)
    → Fits c ci s si
    → ClientStays c ci
    → ServerStays s si
    → client_left c + server_left s ≡ 0
stuck-ends c ci s si f (inl h) (inl k) = omega (arith, h, k)
stuck-ends c ci s si f (inl h) (inr (e, g)) =
    absurd (omega (arith, h, unsent-client c (f.0 ∙ ap₂ (λ a b. server_got a ++ b) e g)))
stuck-ends c ci s si f (inr (e, g)) (inl k) =
    absurd (omega (arith, k, unsent-server s (f.1 ∙ ap₂ (λ a b. client_got a ++ b) e g)))
stuck-ends c ci s si f (inr (e, g)) (inr (e', g')) =
    absurd (
      omega (arith, ap client_left e, unsent-client c (f.0 ∙ ap₂ (λ a b. server_got a ++ b) e' g')))

more-Before : (fd gd n m : ℕ) (b : Both) → n ≤ m → Before fd gd n b → Before fd gd m b
more-Before fd gd n m b h (c, ci, s, si, e, f, l) = (c, ci, s, si, e, f, omega arith)

step-Before :
    (fd gd n : ℕ) (c : ClientStage) (ci : List ℕ) (s : ServerStage) (si : List ℕ) (Stays : Type 0)
    (b : Both)
    → Fits c ci s si
    → client_left c + server_left s < n
    → Further fd gd c ci s si Stays b
    → Before fd gd n b
step-Before fd gd n c ci s si Stays b f l (inl w) =
    more-Before fd gd (client_left c + server_left s) n b (omega arith) w
step-Before fd gd n c ci s si Stays b f l (inr (e, k)) = (c, ci, s, si, e, f, l)

pub turn-Before :
    (fd gd n : ℕ) (t : Turn) (b : Both) → Before fd gd n b → Before fd gd n (play_turn t b)
turn-Before fd gd n (client_turn k) b (c, ci, s, si, e, f, l) =
    subst (λ b'. Before fd gd n (play_turn (client_turn k) b')) (sym e)
      (step-Before fd gd n c ci s si (ClientStays c ci)
        (play_turn (client_turn k) (client_at fd c ci, server_at gd s si)) f l
        (client_move k fd gd c ci s si f))
turn-Before fd gd n (server_turn k) b (c, ci, s, si, e, f, l) =
    subst (λ b'. Before fd gd n (play_turn (server_turn k) b')) (sym e)
      (step-Before fd gd n c ci s si (ServerStays s si)
        (play_turn (server_turn k) (client_at fd c ci, server_at gd s si)) f l
        (server_move k fd gd c ci s si f))

after_wait :
    (fd gd n : ℕ) (c : ClientStage) (ci : List ℕ) (s : ServerStage) (si : List ℕ) (b : Both)
    → Fits c ci s si
    → client_left c + server_left s < suc (suc n)
    → ClientStays c ci
    → Further fd gd c ci s si (ServerStays s si) b
    → Before fd gd (suc n) b
after_wait fd gd n c ci s si b f l h (inl w) =
    more-Before fd gd (client_left c + server_left s) (suc n) b (omega arith) w
after_wait fd gd n c ci s si b f l h (inr (e, k)) =
    (c, ci, s, si, e, f, omega (arith, stuck-ends c ci s si f h k))

-- The server's turn, after one of the client that left `b`.
after_client :
    (fd gd n : ℕ) (c : ClientStage) (ci : List ℕ) (s : ServerStage) (si : List ℕ) (m : ℕ) (b : Both)
    → Fits c ci s si
    → client_left c + server_left s < suc (suc n)
    → Further fd gd c ci s si (ClientStays c ci) b
    → Before fd gd (suc n) (play_turn (server_turn m) b)
after_client fd gd n c ci s si m b f l (inl w) =
    turn-Before fd gd (suc n) (server_turn m) b
      (more-Before fd gd (client_left c + server_left s) (suc n) b (omega arith) w)
after_client fd gd n c ci s si m b f l (inr (e, h)) =
    subst (λ b'. Before fd gd (suc n) (play_turn (server_turn m) b')) (sym e)
      (after_wait fd gd n c ci s si
        (play_turn (server_turn m) (client_at fd c ci, server_at gd s si)) f l h
        (server_move m fd gd c ci s si f))

pub round-Before :
    (fd gd n k m : ℕ) (b : Both)
    → Before fd gd (suc (suc n)) b
    → Before fd gd (suc n) (play_turn (server_turn m) (play_turn (client_turn k) b))
round-Before fd gd n k m b (c, ci, s, si, e, f, l) =
    subst (λ b'. Before fd gd (suc n) (play_turn (server_turn m) (play_turn (client_turn k) b')))
      (sym e)
      (after_client fd gd n c ci s si m
        (play_turn (client_turn k) (client_at fd c ci, server_at gd s si)) f l
        (client_move k fd gd c ci s si f))
