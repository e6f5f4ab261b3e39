-- ===== src/Sockets/Hello.antt =====
-- client.c and server.c run against each other.
use lkp.Sockets.Buffer.{buffer_text-IsText}
use lkp.Sockets.Connection.Greeting.{round-Before, turn-Before}
use lkp.Sockets.Connection.Rounds.{ends-Before}
use lkp.Sockets.Connection.Turns.{Before}
use lkp.Sockets.Setup.{
  server_main-cases, client_main-cases, server_main-HasAccepted, client_main-IsConnected,
  HasAccepted, IsConnected,
}
use lkp.Sockets.Connection.Stages.{
  reads, presses, reading, confirming, greeting, pressing, opens, opening, ends, confirms, greets,
  shows, ended, showing, server_at, client_at, server_left, client_left, Fits, ServerStage,
  ClientStage,
}
use lkp.Sockets.Connection.{side, rounds, play, Turn, Both}
use mathlib.Core.Path.{ap₂, subst}
use lkp.Sockets.Main.{
  server_talk, client_talk, server_main, client_main, hello_client, hello_server,
}
use lkp.Sockets.Program.{
  printf, Line, Calls, exit, press_any_key, hello_message_sent, message_from_server,
  message_from_client, buffer_text,
}
use lkp.Msi.Memory.{IsText}
use lkp.Prelude.{
  inr, inl, ◌⊎◌, false, none, length-append, ap, ℕ, List, [], ◌∷◌, ◌++◌, length, ◌<◌, ◌≤◌, ◌≡◌, ◌∙◌,
  refl, arith, ◌+◌,
}

IsText-front : (xs ys : List ℕ) → IsText (xs ++ ys) → IsText xs
IsText-front [] ys h = tt
IsText-front (x ∷ xs) ys h = (h.0, IsText-front xs ys h.1)

prefix-text :
    (whole xs ys : List ℕ)
    → IsText whole
    → length whole ≤ 4096
    → whole ≡ xs ++ ys
    → buffer_text xs ≡ xs
prefix-text whole xs ys t h e =
    buffer_text-IsText xs (IsText-front xs ys (subst IsText e t))
      (omega (arith, h, ap length e, length-append xs ys))

hello_client-IsText : IsText hello_client
hello_client-IsText = search arith

hello_server-IsText : IsText hello_server
hello_server-IsText = search arith

-- Both programs at their ends: the client has got `bc` of the server's greeting, and the server
-- `bs` of the client's; the rest has come and was not read.
abbrev pub Exchanged : ℕ → ℕ → List ℕ → List ℕ → List ℕ → List ℕ → Both
Exchanged fd ad bc rc bs rs = (
  record {
    program = exit 0;
    socket = fd;
    inbox = rc;
    printed = press_any_key ∷ hello_message_sent ∷ message_from_server bc ∷ [];
  },
  record {
    program = exit 0;
    socket = ad;
    inbox = rs;
    printed = press_any_key ∷ message_from_client bs ∷ hello_message_sent ∷ [];
  },
)

at_end :
    (fd ad : ℕ) (c : ClientStage) (ci : List ℕ) (s : ServerStage) (si : List ℕ)
    → Fits c ci s si
    → client_left c + server_left s < 1
    → (bc rc bs rs : List ℕ) × (0 < length bc)
      × (0 < length bs)
      × (hello_server ≡ bc ++ rc)
      × (hello_client ≡ bs ++ rs)
      × ((client_at fd c ci, server_at ad s si) ≡ Exchanged fd ad bc rc bs rs)
at_end fd ad opening ci s si f l = absurd (omega arith)
at_end fd ad pressing ci s si f l = absurd (omega arith)
at_end fd ad greeting ci s si f l = absurd (omega arith)
at_end fd ad confirming ci s si f l = absurd (omega arith)
at_end fd ad reading ci s si f l = absurd (omega arith)
at_end fd ad (showing bc) ci s si f l = absurd (omega arith)
at_end fd ad (ended bc) ci opens si f l = absurd (omega arith)
at_end fd ad (ended bc) ci presses si f l = absurd (omega arith)
at_end fd ad (ended bc) ci reads si f l = absurd (omega arith)
at_end fd ad (ended bc) ci (shows bs) si f l = absurd (omega arith)
at_end fd ad (ended bc) ci (greets bs) si f l = absurd (omega arith)
at_end fd ad (ended bc) ci (confirms bs) si f l = absurd (omega arith)
at_end fd ad (ended bc) ci (ends bs) si f l =
    let texts =
      ap₂ (λ a b. Exchanged fd ad a ci b si)
        (prefix-text hello_server bc ci hello_server-IsText (omega arith) f.1)
        (prefix-text hello_client bs si hello_client-IsText (omega arith) f.0) in
    (bc, ci, bs, si, f.2, f.3, f.1, f.0, texts)

-- What comes of the programs once all their calls have succeeded, over any order of turns.
talk-exchange :
    (c s : Calls) (fd gd ad : ℕ)
    → IsConnected c fd
    → HasAccepted s gd ad
    → (ts : List Turn) (rounds_then : List (ℕ × ℕ)) → 12 ≤ length rounds_then
    → (bc rc bs rs : List ℕ) × (0 < length bc)
      × (0 < length bs)
      × (hello_server ≡ bc ++ rc)
      × (hello_client ≡ bs ++ rs)
      × (play (ts ++ rounds rounds_then) (side fd (client_main c), side ad (server_main s))
          ≡ Exchanged fd ad bc rc bs rs)
unfolding client_talk server_talk
talk-exchange c s fd gd ad h k ts us l =
    let start : Both = (side fd (client_main c), side ad (server_main s)) in
    let thirteen : client_left opening + server_left opens < 13 = omega arith in
    let e =
      ap₂ (λ p q. (side fd p, side ad q)) (client_main-IsConnected c fd h)
        (server_main-HasAccepted s gd ad k) in
    let begun : Before fd ad 13 start =
      (opening, [], opens, [], e, (refl, refl, tt, tt), thirteen) in
    let (c', ci, s', si, e', f, l') =
      ends-Before (Before fd ad) (turn-Before fd ad) (round-Before fd ad) 12 ts us start l begun in
    let (bc, rc, bs, rs, b, b', q, q', end_) = at_end fd ad c' ci s' si f l' in
    (bc, rc, bs, rs, b, b', q, q', e' ∙ end_)

-- setsockopt refuses a descriptor of -1. Then client.c prints one line and exits with status 255, or
-- server.c does with status 1, or all calls that connect them have succeeded. In that case, the two
-- take turns in any order, each read getting any number of the bytes that have come; once twelve
-- rounds of a turn for each have followed, both have ended with status 0, and each has printed what
-- it got of the other's greeting: one byte of it at least, and its first ones.
pub hello-exchange :
    (c s : Calls)
    → s.setsockopt none ≡ false
    → (ts : List Turn) (rounds_then : List (ℕ × ℕ)) → 12 ≤ length rounds_then
    → ((l : Line) × (client_main c ≡ printf l (exit 255)))
      ⊎ ((l : Line) × (server_main s ≡ printf l (exit 1)))
      ⊎ ((fd gd ad : ℕ) × IsConnected c fd
          × HasAccepted s gd ad
          × ((bc rc bs rs : List ℕ) × (0 < length bc)
              × (0 < length bs)
              × (hello_server ≡ bc ++ rc)
              × (hello_client ≡ bs ++ rs)
              × (play (ts ++ rounds rounds_then) (side fd (client_main c), side ad (server_main s))
                  ≡ Exchanged fd ad bc rc bs rs)))
hello-exchange c s law ts us l = elim (client_main-cases c) [
  | inl failed ↦ inl failed
  | inr (fd, h, _) ↦ elim (server_main-cases s law) [
    | inl failed ↦ inr (inl failed)
    | inr (gd, ad, k, _) ↦ inr (inr (fd, gd, ad, h, k, talk-exchange c s fd gd ad h k ts us l))
  ]
]
