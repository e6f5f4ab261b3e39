-- ===== src/Bus/Data.antt =====
-- The globals of Project_3/part4/part4.c.
use lkp.Prelude.Int.{ℤ}
use lkp.Msi.Data.{MsiList}
use lkp.Prelude.{◌++◌, none, [], ◌∷◌, some, ℕ, Option, List}

pub record BusInfo : Type 0 where
  pub bus_rd : ℕ
  pub bus_rdx : ℕ
  pub bus_upgr : ℕ
  pub cur_var : ℤ
  pub uffd : ℕ

-- The length of states_list
abbrev pub states_size : ℕ
states_size = 1024

-- `pg_size` and `length` are those of the struct that the machine's menu uses: `data` on machine 1,
-- `recv_data` on machine 2. `data_length` is data.length on both. `before` is what stands in
-- memory in front of states_list, where states_list[-1] reads.
pub record Globals : Type 0 where
  pub order : ℕ
  pub pg_size : ℕ
  pub length : ℕ
  pub page_size : ℕ
  pub data_length : ℕ
  pub mem : ℕ → ℕ
  pub states_list : ℕ → MsiList
  pub before : MsiList
  pub bus_signal : BusInfo
  pub recv_signal : BusInfo

-- What the menu prints: a byte of a page, the flags of a page, or that there is no such page.
pub data Line : Type 0 where
  char : ℕ → Line
  flags : ℕ → MsiList → Line
  refused : Line

pub data Command : Type 0 where
  r : ℕ → Command
  w : ℕ → List ℕ → Command
  v : Command

-- `none` is an access outside the region or an array, or a loop that is out of rounds.
abbrev pub Turn : Type 0
Turn = Option (Globals × List Line)

abbrev pub Menu : Type 0
Menu = Command → Globals → Turn

abbrev pub on_turn : Turn → (Globals → Turn) → Turn
on_turn none rest = none
on_turn (some (x, out)) rest = elim (rest x) [
  | none ↦ none
  | some (y, more) ↦ some (y, out ++ more)
]

-- The loop of a menu over the commands before `q`.
unfoldable pub run : Menu → List Command → Globals → Turn
run menu [] x = some (x, [])
run menu (c ∷ cs) x = on_turn (menu c x) (run menu cs)
