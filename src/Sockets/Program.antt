-- ===== src/Sockets/Program.antt =====
-- What a socket program does once its set-up is over: the calls it makes in their order, each with
-- what follows its answer.
use lkp.Msi.Memory.{memcpy, string_at}
use lkp.Prelude.{ℕ, zero, List, Option, none, some, Bool, ◌==◌, false}

-- What printf and perror write, a constructor for each text of the sources.
pub data Line : Type 0 where
  socket_creation_error invalid_address connection_failed : Line
  perror_socket perror_setsockopt perror_bind perror_listen perror_accept : Line
  press_any_key hello_message_sent passed_inet not_applicable not_enough_arguments : Line
  message_from_client message_from_server : List ℕ → Line
  server_socket_with_port client_socket_with_port : ℕ → Line
  string_sending : List ℕ → Option ℕ → ℕ → Line

-- send and read take the descriptor. The answer of send is the number of bytes, `none` for -1; that
-- of read is the bytes it puts into the buffer.
pub data Program : Type 0 where
  exit : ℕ → Program
  printf : Line → Program → Program
  getchar : Program → Program
  send : ℕ → List ℕ → (Option ℕ → Program) → Program
  read : ℕ → ℕ → (List ℕ → Program) → Program

-- What the set-up calls answer: `none` and `false` are -1 (0 too, for inet_pton), and a descriptor of
-- `none` is -1. connect and bind are given the port.
pub record Calls : Type 0 where
  pub socket : Option ℕ
  pub setsockopt : Option ℕ → Bool
  pub inet_pton : Bool
  pub connect : Option ℕ → ℕ → Bool
  pub bind : Option ℕ → ℕ → Bool
  pub listen : Option ℕ → Bool
  pub accept : Option ℕ → Option ℕ

-- fd == 0
abbrev pub is_zero : Option ℕ → Bool
is_zero none = false
is_zero (some fd) = fd == 0

-- What %s prints of a zeroed buffer of 4096 bytes into which `bs` was read.
unfoldable pub buffer_text : List ℕ → List ℕ
buffer_text bs = string_at 4096 (memcpy (λ _. zero) 0 bs) 0
