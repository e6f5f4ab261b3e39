-- ===== src/Sockets/Pair.antt =====
-- Project_3/part2/part22.c: a server and a client in one program, chosen by its arguments.
pub mod Turns
use lkp.Sockets.Program.{
  Calls, Program, Line, exit, printf, getchar, send, read, is_zero, buffer_text, press_any_key,
  perror_socket, perror_setsockopt, perror_bind, perror_listen, perror_accept, invalid_address,
  connection_failed, passed_inet, not_applicable, not_enough_arguments, message_from_server,
  server_socket_with_port, client_socket_with_port, string_sending,
}
use lkp.Prelude.{
  ℕ, List, [], ◌∷◌, Option, none, some, Bool, true, false, not, ◌==◌, ◌^◌, ◌-◌, if◌then◌else◌,
}

-- "Hello from Server"
abbrev pub hello : List ℕ
hello =
    72 ∷ 101 ∷ 108 ∷ 108 ∷ 111 ∷ 32 ∷ 102 ∷ 114 ∷ 111 ∷ 109 ∷ 32 ∷ 83 ∷ 101 ∷ 114 ∷ 118 ∷ 101 ∷ 114
    ∷ []

abbrev pub pair_port1 : ℕ
pair_port1 = 5984

abbrev pub pair_port2 : ℕ
pair_port2 = 2000

-- new_socket = accept(...) < 0
abbrev pub is_negative : Option ℕ → ℕ
is_negative none = 1
is_negative (some fd) = 0

-- server_socket once `accept` is over.
unfoldable pub send_hello : ℕ → Program
send_hello new_socket =
    printf press_any_key
      (getchar (send new_socket hello (λ j. printf (string_sending hello j new_socket) (exit 0))))

-- The exit of status 0 is the return of main.
unfoldable pub server_socket : Calls → ℕ → Program
unfolding send_hello
server_socket c process_type =
    let port = if process_type == 1 then pair_port1 else pair_port2 in
    let new_socket = is_negative (c.accept c.socket) in
    printf (server_socket_with_port port) (
      if is_zero c.socket
      then printf perror_socket (exit 1)
      else if not (c.setsockopt c.socket)
      then printf perror_setsockopt (exit 1)
      else if not (c.bind c.socket port)
      then printf perror_bind (exit 1)
      else if not (c.listen c.socket)
      then printf perror_listen (exit 1)
      else if not (new_socket == 0)
      then printf perror_accept (exit 1)
      else send_hello new_socket)

-- client_socket once it is connected.
unfoldable pub receive_hello : ℕ → Program
receive_hello client_fd =
    printf press_any_key
      (getchar (read client_fd 4096 (λ bs. printf (message_from_server (buffer_text bs)) (exit 0))))

-- The int of a descriptor.
abbrev pub as_int : Option ℕ → ℕ
as_int none = 2 ^ 32 - 1
as_int (some fd) = fd

unfoldable pub client_socket : Calls → ℕ → Program
unfolding receive_hello
client_socket c process_type =
    let port = if process_type == 1 then pair_port2 else pair_port1 in
    if is_zero c.socket
    then printf perror_socket (exit 1)
    else printf (client_socket_with_port port) (
        if not c.inet_pton
        then printf invalid_address (exit 1)
        else printf passed_inet (
            if not (c.connect c.socket port)
            then printf connection_failed (exit 1)
            else receive_hello (as_int c.socket)))

-- strcmp(s, x) == 0, where `x` has the one character `ch`.
abbrev pub is_letter : ℕ → List ℕ → Bool
is_letter ch [] = false
is_letter ch (x ∷ []) = x == ch
is_letter ch (x ∷ y ∷ s) = false

unfoldable pub select_function : Calls → List ℕ → ℕ → Program
unfolding server_socket client_socket
select_function c socket_type ptype =
    if is_letter 115 socket_type
    then server_socket c ptype
    else if is_letter 99 socket_type
    then client_socket c ptype
    else printf not_applicable (exit 0)

-- main, with argv and the C library's atoi; `none` where argv[4] is NULL, which atoi reads.
unfoldable pub main : (List ℕ → ℕ) → Calls → List (List ℕ) → Option Program
unfolding select_function
main atoi c [] = some (printf not_enough_arguments (exit 0))
main atoi c (name ∷ []) = some (printf not_enough_arguments (exit 0))
main atoi c (name ∷ server_type ∷ []) = some (printf not_enough_arguments (exit 0))
main atoi c (name ∷ server_type ∷ size ∷ []) = some (printf not_enough_arguments (exit 0))
main atoi c (name ∷ server_type ∷ size ∷ client_type ∷ []) = none
main atoi c (name ∷ server_type ∷ size ∷ client_type ∷ process ∷ rest) =
    let proc_type = atoi process in
    some (
      if proc_type == 1
      then select_function c server_type proc_type
      else select_function c client_type proc_type)
