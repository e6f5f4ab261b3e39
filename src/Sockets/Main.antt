-- ===== src/Sockets/Main.antt =====
-- The two programs of Project_1: client.c and server.c.
use lkp.Sockets.Program.{
  perror_accept, buffer_text, perror_listen, message_from_server, message_from_client,
  connection_failed, perror_bind, hello_message_sent, perror_setsockopt, read, send,
  invalid_address, exit, getchar, perror_socket, socket_creation_error, press_any_key, printf,
  is_zero, Program, Calls,
}
use lkp.Prelude.{ℕ, List, [], ◌∷◌, none, some, not, if◌then◌else◌}

-- "Hello from client"
abbrev pub hello_client : List ℕ
hello_client =
    72 ∷ 101 ∷ 108 ∷ 108 ∷ 111 ∷ 32 ∷ 102 ∷ 114 ∷ 111 ∷ 109 ∷ 32 ∷ 99 ∷ 108 ∷ 105 ∷ 101 ∷ 110 ∷ 116
    ∷ []

-- "Hello from server"
abbrev pub hello_server : List ℕ
hello_server =
    72 ∷ 101 ∷ 108 ∷ 108 ∷ 111 ∷ 32 ∷ 102 ∷ 114 ∷ 111 ∷ 109 ∷ 32 ∷ 115 ∷ 101 ∷ 114 ∷ 118 ∷ 101 ∷ 114
    ∷ []

-- client.c once it is connected.
unfoldable pub client_talk : ℕ → Program
client_talk sock = printf press_any_key (
    getchar (
      send sock hello_client (λ _.
        printf hello_message_sent
          (read sock 1024 (λ bs. printf (message_from_server (buffer_text bs)) (exit 0))))))

-- server.c once it has accepted a connection.
unfoldable pub server_talk : ℕ → Program
server_talk new_socket = printf press_any_key (
    getchar (
      read new_socket 1024 (λ bs.
        printf (message_from_client (buffer_text bs))
          (send new_socket hello_server (λ _. printf hello_message_sent (exit 0))))))

-- main of client.c; a return of -1 is the status 255.
unfoldable pub client_main : Calls → Program
client_main c = elim c.socket [
  | none ↦ printf socket_creation_error (exit 255)
  | some sock ↦
      if not c.inet_pton
      then printf invalid_address (exit 255)
      else if not (c.connect (some sock) 5984)
      then printf connection_failed (exit 255)
      else client_talk sock
]

-- main of server.c: an answer of -1 by `socket` is not caught there.
unfoldable pub server_main : Calls → Program
server_main c =
    if is_zero c.socket
    then printf perror_socket (exit 1)
    else if not (c.setsockopt c.socket)
    then printf perror_setsockopt (exit 1)
    else if not (c.bind c.socket 5984)
    then printf perror_bind (exit 1)
    else if not (c.listen c.socket)
    then printf perror_listen (exit 1)
    else elim (c.accept c.socket) [
      | none ↦ printf perror_accept (exit 1)
      | some new_socket ↦ server_talk new_socket
    ]
