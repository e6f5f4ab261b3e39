-- ===== src/Sockets/Connection.antt =====
-- Two programs at the ends of a connection, which take turns in any order. The connection brings the
-- bytes of each to the other in their order, and a read takes as many of those that are there as
-- the turn says, at least one. It waits where there is none, until the other program has ended.
pub mod Stages
pub mod Turns
pub mod Rounds
pub mod Greeting
use lkp.Sockets.Program.{read, send, getchar, printf, exit, Line, Program}
use Prim.Native.Nat.{min}
use lkp.Prelude.{
  Bool, ℕ, zero, suc, List, [], ◌∷◌, ◌++◌, Option, none, some, true, false, ◌==◌, take, drop,
  length, if◌then◌else◌,
}

-- A program, the descriptor of its end, the bytes that have come and what it has printed.
pub record Side : Type 0 where
  pub program : Program
  pub socket : ℕ
  pub inbox : List ℕ
  pub printed : List Line

abbrev pub side : ℕ → Program → Side
side fd k = record { program = k; socket = fd; inbox = []; printed = [] }

abbrev pub has_ended : Program → Bool
has_ended (exit s) = true
has_ended (printf l k) = false
has_ended (getchar k) = false
has_ended (send fd bs k) = false
has_ended (read fd size k) = false

-- A read of up to `size` bytes, given `n + 1` of those in the inbox if that are fewer; `ended` says
-- that the other program has. `none` waits.
unfoldable pub take_in : ℕ → ℕ → Bool → (List ℕ → Program) → List ℕ → Side → Option Side
take_in n size ended k [] x = if ended then some (record x { program = k [] }) else none
take_in n size ended k (b ∷ bs) x =
    let m = min (suc n) size in
    some (record x { program = k (take m (b ∷ bs)); inbox = drop m (b ∷ bs) })

-- A turn of the program of `x`, with `y` at the other end. On a descriptor other than the connection's,
-- send and read fail, and read leaves the buffer as it is.
unfoldable pub move : ℕ → Program → Side → Side → Option (Side × Side)
unfolding take_in
move n (exit s) x y = none
move n (printf l k) x y = some (record x { program = k; printed = x.printed ++ l ∷ [] }, y)
move n (getchar k) x y = some (record x { program = k }, y)
move n (send fd bs k) x y =
    if fd == x.socket
    then some (record x { program = k (some (length bs)) }, record y { inbox = y.inbox ++ bs })
    else some (record x { program = k none }, y)
move n (read fd size k) x y =
    if fd == x.socket
    then elim (take_in n size (has_ended y.program) k x.inbox x) [
      | none ↦ none
      | some x' ↦ some (x', y)
    ]
    else some (record x { program = k [] }, y)

pub data Turn : Type 0 where
  client_turn server_turn : ℕ → Turn

abbrev pub Both : Type 0
Both = Side × Side

abbrev pub or_stay : Both → Option Both → Both
or_stay b none = b
or_stay b (some b') = b'

abbrev pub swap_ends : Both → Both
swap_ends (x, y) = (y, x)

-- The client's side is the first. A program that waits loses its turn.
unfoldable pub play_turn : Turn → Both → Both
unfolding move
play_turn (client_turn n) (x, y) = or_stay (x, y) (move n x.program x y)
play_turn (server_turn n) (x, y) = swap_ends (or_stay (y, x) (move n y.program y x))

unfoldable pub play : List Turn → Both → Both
unfolding play_turn
play [] b = b
play (t ∷ ts) b = play ts (play_turn t b)

-- A turn for each.
abbrev pub rounds : List (ℕ × ℕ) → List Turn
rounds [] = []
rounds ((n, m) ∷ rs) = client_turn n ∷ server_turn m ∷ rounds rs
