-- ===== src/Sockets/Connection/Turns.antt =====
-- A turn of client.c or server.c takes it to its next stage, except where it waits.
use Prim.Native.Nat.{min}
use lkp.Sockets.Main.{hello_server, hello_client}
use lkp.Sockets.Program.{exit, hello_message_sent, printf, send, read, Program}
use lkp.Sockets.Connection.{
  swap_ends, or_stay, has_ended, play_turn, move, take_in, Both, Side, client_turn, server_turn,
}
use lkp.Sockets.Connection.Stages.{
  client_got, client_next, server_show, server_next, client_sent, server_sent, client_show,
  server_got, client_read, Fits, client_at, server_at, client_left, server_left, ClientStage,
  ServerStage, opening, pressing, greeting, confirming, reading, showing, ended, opens, presses,
  reads, shows, greets, confirms, ends,
}
use lkp.Prelude.{
  true, append_assoc, take-append-drop, sym, none, length-take, ◌∙◌, suc, some, false, drop, ap,
  Option, take, ℕ, List, [], ◌∷◌, ◌++◌, length, ◌<◌, ◌≡◌, ◌⊎◌, inl, inr, refl, arith, ◌+◌,
}

-- send and read on the descriptor of the connection.
move-send :
    (n : ℕ) (bs : List ℕ) (k : Option ℕ → Program) (x y : Side)
    → move n (send x.socket bs k) x y
      ≡ some (record x { program = k (some (length bs)) }, record y { inbox = y.inbox ++ bs })
unfolding move
move-send n bs k x y = ground arith

move-read :
    (n size : ℕ) (k : List ℕ → Program) (x y : Side) (b : ℕ) (bs : List ℕ)
    → x.inbox ≡ b ∷ bs
    → move n (read x.socket size k) x y
      ≡ some (
        record x {
          program = k (take (min (suc n) size) (b ∷ bs));
          inbox = drop (min (suc n) size) (b ∷ bs);
        },
        y,
      )
unfolding move take_in
move-read n size k x y b bs h = ground arith

pub move-read_wait :
    (n size : ℕ) (k : List ℕ → Program) (x y : Side)
    → x.inbox ≡ []
    → has_ended y.program ≡ false
    → move n (read x.socket size k) x y ≡ none
unfolding move take_in
move-read_wait n size k x y h e = ground arith

pub move-read_end :
    (n size : ℕ) (k : List ℕ → Program) (x y : Side)
    → x.inbox ≡ []
    → has_ended y.program ≡ true
    → move n (read x.socket size k) x y ≡ some (record x { program = k [] }, y)
unfolding move take_in
move-read_end n size k x y h e = ground arith

-- The bytes that a read leaves are still to come.
sent-read : (m : ℕ) (sent bs : List ℕ) → sent ≡ [] ++ bs → sent ≡ take m bs ++ drop m bs
sent-read m sent bs h = h ∙ sym (take-append-drop m bs)

got-read : (k n : ℕ) (b : ℕ) (bs : List ℕ) → 0 < length (take (min (suc k) (suc n)) (b ∷ bs))
got-read k n b bs = omega (arith, length-take {A = ℕ})

server-going :
    (gd : ℕ) (s : ServerStage) → server_sent s ≡ [] → has_ended (server_next gd s) ≡ false
server-going gd opens h = refl
server-going gd presses h = refl
server-going gd reads h = refl
server-going gd (shows bs) h = refl
server-going gd (greets bs) h = refl
server-going gd (confirms bs) h = refl
server-going gd (ends bs) h = absurd (ground (arith, h))

client-going :
    (fd : ℕ) (c : ClientStage) → client_sent c ≡ [] → has_ended (client_next fd c) ≡ false
client-going fd opening h = refl
client-going fd pressing h = refl
client-going fd greeting h = refl
client-going fd confirming h = refl
client-going fd reading h = refl
client-going fd (showing bs) h = refl
client-going fd (ended bs) h = absurd (ground (arith, h))

-- A state that both programs can come to, with fewer than `n` turns left.
abbrev pub Before : ℕ → ℕ → ℕ → Both → Type 0
Before fd gd n b =
    (c : ClientStage) × (ci : List ℕ) × (s : ServerStage) × (si : List ℕ) × (b
      ≡ (client_at fd c ci, server_at gd s si))
    × Fits c ci s si
    × (client_left c + server_left s < n)

-- After a turn of one: a stage further, or as before with that one at its end or waiting.
abbrev pub Further : ℕ → ℕ → ClientStage → List ℕ → ServerStage → List ℕ → Type 0 → Both → Type 0
Further fd gd c ci s si Stays b =
    Before fd gd (client_left c + server_left s) b
    ⊎ ((b ≡ (client_at fd c ci, server_at gd s si)) × Stays)

abbrev pub ClientStays : ClientStage → List ℕ → Type 0
ClientStays c ci = (client_left c ≡ 0) ⊎ ((c ≡ reading) × (ci ≡ []))

pub client_move :
    (k fd gd : ℕ) (c : ClientStage) (ci : List ℕ) (s : ServerStage) (si : List ℕ)
    → Fits c ci s si
    → Further fd gd c ci s si
        (ClientStays c ci)
        (play_turn (client_turn k) (client_at fd c ci, server_at gd s si))
unfolding play_turn
client_move k fd gd opening ci s si f = inl (pressing, ci, s, si, refl, f, omega arith)
client_move k fd gd pressing ci s si f = inl (greeting, ci, s, si, refl, f, omega arith)
client_move k fd gd greeting ci s si f = inl (
  confirming,
  ci,
  s,
  si ++ hello_client,
  ap (or_stay (client_at fd greeting ci, server_at gd s si)) (
      move-send k hello_client (λ _. printf hello_message_sent (client_read fd))
        (client_at fd greeting ci) (server_at gd s si)),
  (ap (λ l. l ++ hello_client) f.0 ∙ append_assoc (server_got s) si hello_client, f.1, f.2, f.3),
  omega arith,
)
client_move k fd gd confirming ci s si f = inl (reading, ci, s, si, refl, f, omega arith)
client_move k fd gd reading [] s si f = inr (
  ap (or_stay (client_at fd reading [], server_at gd s si)) (
      move-read_wait k 1024 client_show (client_at fd reading []) (server_at gd s si) refl
        (server-going gd s f.1)),
  inr (refl, refl),
)
client_move k fd gd reading (b ∷ bs) s si f = inl (
  showing (take (min (suc k) 1024) (b ∷ bs)),
  drop (min (suc k) 1024) (b ∷ bs),
  s,
  si,
  ap (or_stay (client_at fd reading (b ∷ bs), server_at gd s si))
      (move-read k 1024 client_show (client_at fd reading (b ∷ bs)) (server_at gd s si) b bs refl),
  (f.0, sent-read (min (suc k) 1024) (server_sent s) (b ∷ bs) f.1, got-read k 1023 b bs, f.3),
  omega arith,
)
client_move k fd gd (showing bs) ci s si f = inl (ended bs, ci, s, si, refl, f, omega arith)
client_move k fd gd (ended bs) ci s si f = inr (refl, inl refl)

abbrev pub ServerStays : ServerStage → List ℕ → Type 0
ServerStays s si = (server_left s ≡ 0) ⊎ ((s ≡ reads) × (si ≡ []))

-- The state with the server's turn played, where its own turn gave `o`.
abbrev back : ℕ → ℕ → ClientStage → List ℕ → ServerStage → List ℕ → Option Both → Both
back fd gd c ci s si o = swap_ends (or_stay (server_at gd s si, client_at fd c ci) o)

pub server_move :
    (k fd gd : ℕ) (c : ClientStage) (ci : List ℕ) (s : ServerStage) (si : List ℕ)
    → Fits c ci s si
    → Further fd gd c ci s si
        (ServerStays s si)
        (play_turn (server_turn k) (client_at fd c ci, server_at gd s si))
unfolding play_turn
server_move k fd gd c ci opens si f = inl (c, ci, presses, si, refl, f, omega arith)
server_move k fd gd c ci presses si f = inl (c, ci, reads, si, refl, f, omega arith)
server_move k fd gd c ci reads [] f = inr (
  ap (back fd gd c ci reads []) (
      move-read_wait k 1024 (server_show gd) (server_at gd reads []) (client_at fd c ci) refl
        (client-going fd c f.0)),
  inr (refl, refl),
)
server_move k fd gd c ci reads (b ∷ bs) f = inl (
  c,
  ci,
  shows (take (min (suc k) 1024) (b ∷ bs)),
  drop (min (suc k) 1024) (b ∷ bs),
  ap (back fd gd c ci reads (b ∷ bs)) (
      move-read k 1024 (server_show gd) (server_at gd reads (b ∷ bs)) (client_at fd c ci) b bs
        refl),
  (sent-read (min (suc k) 1024) (client_sent c) (b ∷ bs) f.0, f.1, f.2, got-read k 1023 b bs),
  omega arith,
)
server_move k fd gd c ci (shows bs) si f = inl (c, ci, greets bs, si, refl, f, omega arith)
server_move k fd gd c ci (greets bs) si f = inl (
  c,
  ci ++ hello_server,
  confirms bs,
  si,
  ap (back fd gd c ci (greets bs) si) (
      move-send k hello_server (λ _. printf hello_message_sent (exit 0))
        (server_at gd (greets bs) si) (client_at fd c ci)),
  (f.0, ap (λ l. l ++ hello_server) f.1 ∙ append_assoc (client_got c) ci hello_server, f.2, f.3),
  omega arith,
)
server_move k fd gd c ci (confirms bs) si f = inl (c, ci, ends bs, si, refl, f, omega arith)
server_move k fd gd c ci (ends bs) si f = inr (refl, inl refl)
