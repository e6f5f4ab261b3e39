-- ===== src/Msi/Setup/Attempts.antt =====
-- Where the set-up of Project_3_new/part4/part4.c comes to.
use native.Mathlib.Decide.{ℕ_discrete}
use mathlib.Core.Path.{sym, subst}
use lkp.Msi.Setup.{
  listen_failed, invalid_address, bind_failed, setsockopt_failed, socket_failed, Calls, Server,
  Client, listens, connected, threads, server_setup, client_setup, retry, main, as_first,
}
use lkp.Sockets.Program.{is_zero}
use lkp.Prelude.{
  ◌∙◌, ap, ◌==◌, if◌then◌else◌, Bool, ℕ, zero, suc, ◌+◌, List, ◌∷◌, Option, none, some, true, false,
  ◌≡◌, ◌≢◌, ◌≤◌, ◌<◌, inl, inr, refl, arith, Bool-cases, Option-cases,
}

-- The first attempt from `n` on that succeeds, within `fuel`; or all of them fail.
abbrev Retries : ℕ → (ℕ → Bool) → ℕ → Option ℕ → Type 0
Retries fuel connect n none = (j : ℕ) → n ≤ j → j < n + fuel → connect j ≡ false
Retries fuel connect n (some m) =
    (n ≤ m) × (m < n + fuel) × (connect m ≡ true) × ((j : ℕ) → n ≤ j → j < m → connect j ≡ false)

later-Retries :
    (fuel : ℕ) (connect : ℕ → Bool) (n : ℕ) (o : Option ℕ)
    → connect n ≡ false
    → Retries fuel connect (suc n) o
    → Retries (suc fuel) connect n o
later-Retries fuel connect n none e r = λ j h k. elim (ℕ_discrete j n) [
  | yes q ↦ ap connect q ∙ e
  | no d ↦ r j (omega (arith, h, d)) (omega (arith, k))
]
later-Retries fuel connect n (some m) e (l, u, t, f) = (
  omega (arith, l),
  omega (arith, u),
  t,
  λ j h k. elim (ℕ_discrete j n) [ yes q ↦ ap connect q ∙ e | no d ↦ f j (omega (arith, h, d)) k ],
)

retry-Retries :
    (fuel : ℕ) (connect : ℕ → Bool) (n : ℕ) → Retries fuel connect n (retry fuel connect n)
unfolding retry
retry-Retries zero connect n = λ j h k. absurd (omega (arith, h, k))
retry-Retries (suc fuel) connect n = elim (Bool-cases (connect n)) [
  | inl e ↦ rw e (omega arith, omega arith, e, λ j h k. absurd (omega (arith, h, k)))
  | inr e ↦ rw e (
      later-Retries fuel connect n (retry fuel connect (suc n)) e
        (retry-Retries fuel connect (suc n)))
]

-- The call that a failure names has failed; a server that listens has a socket for it.
abbrev pub ServerEnds : Calls → ℕ → Server → Type 0
ServerEnds c port (Server.exits socket_failed) = c.server_fd ≡ some 0
ServerEnds c port (Server.exits setsockopt_failed) = c.setsockopt c.server_fd ≡ false
ServerEnds c port (Server.exits bind_failed) = c.bind c.server_fd port ≡ false
ServerEnds c port (Server.exits listen_failed) = c.listen c.server_fd ≡ false
ServerEnds c port (Server.exits invalid_address) = ⊥
ServerEnds c port (listens fd) =
    (d : ℕ) × (fd ≡ some d)
    × (c.server_fd ≡ some d)
    × (d ≢ 0)
    × (c.bind (some d) port ≡ true)
    × (c.listen (some d) ≡ true)

-- A client that is connected has made its first attempt that succeeds, with a socket, and is machine 2
-- exactly if that was the first of all.
abbrev pub ClientEnds : ℕ → Calls → ℕ → Option Client → Type 0
ClientEnds fuel c port none = (j : ℕ) → j ≤ fuel → c.connect c.client_fd port j ≡ false
ClientEnds fuel c port (some (Client.exits socket_failed)) = c.client_fd ≡ some 0
ClientEnds fuel c port (some (Client.exits invalid_address)) = c.inet_aton ≡ false
ClientEnds fuel c port (some (Client.exits f)) = ⊥
ClientEnds fuel c port (some (connected k fd n)) =
    (d : ℕ) × (fd ≡ some d)
    × (c.client_fd ≡ some d)
    × (d ≢ 0)
    × (c.connect (some d) port n ≡ true)
    × ((j : ℕ) → j < n → c.connect (some d) port j ≡ false)
    × (k ≡ (if n == 0 then 2 else 1))
    × (n ≤ fuel)

server_setup-Ends :
    (c : Calls) (port : ℕ) → c.setsockopt none ≡ false → ServerEnds c port (server_setup c port)
unfolding server_setup
server_setup-Ends c port h =
    let by : (s : Server)
        → server_setup c port ≡ s
        → ServerEnds c port s
        → ServerEnds c port (server_setup c port) =
      λ s e x. subst (ServerEnds c port) (sym e) x in
    elim (Option-cases c.server_fd) [
      | inl e ↦ by (Server.exits setsockopt_failed) (ground arith) (ap c.setsockopt e ∙ h)
      | inr (d, e) ↦ elim (Bool-cases (d == 0)) [
        | inl z ↦ by (Server.exits socket_failed) (ground arith) (ground arith)
        | inr z ↦ elim (Bool-cases (c.setsockopt (some d))) [
          | inr o ↦ by (Server.exits setsockopt_failed) (ground arith) (ap c.setsockopt e ∙ o)
          | inl o ↦ elim (Bool-cases (c.bind (some d) port)) [
            | inr b ↦ by (Server.exits bind_failed) (ground arith) (rw e b)
            | inl b ↦ elim (Bool-cases (c.listen (some d))) [
              | inr l ↦ by (Server.exits listen_failed) (ground arith) (rw e l)
              | inl l ↦ by (listens (some d)) (ground arith) (d, refl, e, (λ q. ground arith), b, l)
            ]
          ]
        ]
      ]
    ]

-- A descriptor that connects is not -1, and one that is not 0 has another number.
has_fd :
    (c : Calls) (port j : ℕ)
    → c.connect none port j ≡ false
    → is_zero c.client_fd ≡ false
    → c.connect c.client_fd port j ≡ true
    → (d : ℕ) × (c.client_fd ≡ some d) × (d ≢ 0) × (c.connect (some d) port j ≡ true)
has_fd c port j h z k = elim (Option-cases c.client_fd) [
  | inl e ↦ absurd (ground arith)
  | inr (d, e) ↦ (d, e, (λ q. ground arith), ground arith)
]

as_first-Ends :
    (fuel : ℕ) (c : Calls) (port : ℕ) (o : Option ℕ)
    → ((j : ℕ) → c.connect none port j ≡ false)
    → is_zero c.client_fd ≡ false
    → c.connect c.client_fd port 0 ≡ false
    → Retries fuel (c.connect c.client_fd port) 1 o
    → ClientEnds fuel c port (as_first c.client_fd o)
as_first-Ends fuel c port none h z k r = λ j m. elim (ℕ_discrete j 0) [
  | yes q ↦ rw q k
  | no q ↦ r j (omega (arith, q)) (omega (arith, m))
]
as_first-Ends fuel c port (some n) h z k (l, u, t, f) =
    let (d, e, d0, t') = has_fd c port n (h n) z t in
    (
      d,
      e,
      e,
      d0,
      t',
      (λ j m. elim (ℕ_discrete j 0) [ yes q ↦ cc | no q ↦ cc (f j (omega (arith, q)) m) ]),
      ground arith,
      omega (arith, u),
    )

client_setup-Ends :
    (fuel : ℕ) (c : Calls) (port : ℕ)
    → ((j : ℕ) → c.connect none port j ≡ false)
    → ClientEnds fuel c port (client_setup fuel c port)
unfolding client_setup
client_setup-Ends fuel c port h =
    let by : (s : Option Client)
        → client_setup fuel c port ≡ s
        → ClientEnds fuel c port s
        → ClientEnds fuel c port (client_setup fuel c port) =
      λ s e x. subst (ClientEnds fuel c port) (sym e) x in
    elim (Bool-cases (is_zero c.client_fd)) [
      | inl z ↦ by (some (Client.exits socket_failed)) (ground arith) (ground arith)
      | inr z ↦ elim (Bool-cases c.inet_aton) [
        | inr i ↦ by (some (Client.exits invalid_address)) (ground arith) i
        | inl i ↦ elim (Bool-cases (c.connect c.client_fd port 0)) [
          | inl k ↦ by (some (connected 2 c.client_fd 0)) (ground arith) (
              let (d, e, d0, t) = has_fd c port 0 (h 0) z k in
              (d, e, e, d0, t, (λ j m. absurd (omega (arith, m))), refl, omega arith))
          | inr k ↦
              by (as_first c.client_fd (retry fuel (c.connect c.client_fd port) 1)) (ground arith) (
                as_first-Ends fuel c port (retry fuel (c.connect c.client_fd port) 1) h z k
                  (retry-Retries fuel (c.connect c.client_fd port) 1))
        ]
      ]
    ]

-- Where setsockopt and connect refuse a descriptor of -1, there are two numbers behind the name, and
-- both threads are created: a server that exits names a call that failed, and one that listens has a
-- socket, neither -1 nor 0, that is bound and listens. A client that exits names a call that failed;
-- one that is connected has a socket, neither -1 nor 0, no attempt before its last has succeeded, and
-- it is machine 2 exactly if the first attempt did; and one that is not connected after all its
-- attempts has failed in each.
pub setup-Ends :
    (fuel : ℕ) (atoi : List ℕ → ℕ) (c : Calls) (name serv_num cli_num : List ℕ)
    (rest : List (List ℕ))
    → c.setsockopt none ≡ false
    → ((j : ℕ) → c.connect none (atoi cli_num) j ≡ false)
    → c.pthread_create 0 ≡ true
    → c.pthread_create 1 ≡ true
    → (s : Server) × (o : Option Client) × (main fuel atoi c (name ∷ serv_num ∷ cli_num ∷ rest)
        ≡ some (threads s o))
      × ServerEnds c (atoi serv_num) s
      × ClientEnds fuel c (atoi cli_num) o
unfolding main
setup-Ends fuel atoi c name serv_num cli_num rest h k p q = (
  server_setup c (atoi serv_num),
  client_setup fuel c (atoi cli_num),
  ground arith,
  server_setup-Ends c (atoi serv_num) h,
  client_setup-Ends fuel c (atoi cli_num) k,
)
