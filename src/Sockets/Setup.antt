-- ===== src/Sockets/Setup.antt =====
-- How far the set-up of client.c and server.c comes.
use lkp.Sockets.Main.{server_talk, client_talk, client_main, server_main}
use lkp.Sockets.Program.{
  perror_accept, perror_listen, perror_bind, connection_failed, perror_socket, invalid_address,
  perror_setsockopt, socket_creation_error, Calls, Line, printf, exit,
}
use lkp.Prelude.{
  ◌==◌, Bool-cases, Option-cases, ℕ, ◌≡◌, ◌≢◌, ◌⊎◌, inl, inr, some, none, true, false, arith,
}

-- The calls of the client succeed: it has the descriptor `fd`.
abbrev pub IsConnected : Calls → ℕ → Type 0
IsConnected c fd = (c.socket ≡ some fd) × (c.inet_pton ≡ true) × (c.connect (some fd) 5984 ≡ true)

-- Those of the server do: `gd` listens, and `ad` is the connection.
abbrev pub HasAccepted : Calls → ℕ → ℕ → Type 0
HasAccepted s gd ad =
    (s.socket ≡ some gd)
    × (gd ≢ 0)
    × (s.setsockopt (some gd) ≡ true)
    × (s.bind (some gd) 5984 ≡ true)
    × (s.listen (some gd) ≡ true)
    × (s.accept (some gd) ≡ some ad)

pub client_main-IsConnected :
    (c : Calls) (fd : ℕ) → IsConnected c fd → client_main c ≡ client_talk fd
unfolding client_main
client_main-IsConnected c fd h = ground arith

pub server_main-HasAccepted :
    (s : Calls) (gd ad : ℕ) → HasAccepted s gd ad → server_main s ≡ server_talk ad
unfolding server_main
server_main-HasAccepted s gd ad h = ground arith

pub client_main-cases :
    (c : Calls)
    → ((l : Line) × (client_main c ≡ printf l (exit 255)))
      ⊎ ((fd : ℕ) × IsConnected c fd × (client_main c ≡ client_talk fd))
unfolding client_main
client_main-cases c = elim (Option-cases c.socket) [
  | inl e ↦ inl (socket_creation_error, ground arith)
  | inr (fd, e) ↦ elim (Bool-cases c.inet_pton) [
    | inr i ↦ inl (invalid_address, ground arith)
    | inl i ↦ elim (Bool-cases (c.connect (some fd) 5984)) [
      | inr k ↦ inl (connection_failed, ground arith)
      | inl k ↦ inr (fd, (e, i, k), client_main-IsConnected c fd (e, i, k))
    ]
  ]
]

-- setsockopt refuses a descriptor of -1, which server.c does not test for.
pub server_main-cases :
    (s : Calls)
    → s.setsockopt none ≡ false
    → ((l : Line) × (server_main s ≡ printf l (exit 1)))
      ⊎ ((gd ad : ℕ) × HasAccepted s gd ad × (server_main s ≡ server_talk ad))
unfolding server_main
server_main-cases s h = elim (Option-cases s.socket) [
  | inl e ↦ inl (perror_setsockopt, ground arith)
  | inr (gd, e) ↦ elim (Bool-cases (gd == 0)) [
    | inl z ↦ inl (perror_socket, ground arith)
    | inr z ↦ elim (Bool-cases (s.setsockopt (some gd))) [
      | inr o ↦ inl (perror_setsockopt, ground arith)
      | inl o ↦ elim (Bool-cases (s.bind (some gd) 5984)) [
        | inr b ↦ inl (perror_bind, ground arith)
        | inl b ↦ elim (Bool-cases (s.listen (some gd))) [
          | inr l ↦ inl (perror_listen, ground arith)
          | inl l ↦ elim (Option-cases (s.accept (some gd))) [
            | inl a ↦ inl (perror_accept, ground arith)
            | inr (ad, a) ↦
                let h' : HasAccepted s gd ad = (e, (λ q. ground arith), o, b, l, a) in
                inr (gd, ad, h', server_main-HasAccepted s gd ad h')
          ]
        ]
      ]
    ]
  ]
]
