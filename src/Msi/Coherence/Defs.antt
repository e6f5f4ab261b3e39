-- ===== src/Msi/Coherence/Defs.antt =====
-- The abstract directory of one page, and the invariant that ties two machines to it.
use lkp.Prelude.{get_or, length, ℕ, ◌+◌, ◌-◌, true, ◌*◌, ◌≤◌, ◌<◌, ◌≡◌}
use lkp.Prelude.{List}
use lkp.Msi.System.{Outcome, done, blocked, stray, fault, Line}
use lkp.Msi.Data.{Machine, MsiList, modified, shared, invalid, max_size}

-- Who has a page: the machine that acts is `self`, the other `peer`.
pub data Owners : Type 0 where
  nobody both_shared self_modified peer_modified : Owners

abbrev pub self_flags : Owners → MsiList
self_flags nobody = invalid
self_flags both_shared = shared
self_flags self_modified = modified
self_flags peer_modified = invalid

-- The same page seen from the other machine.
abbrev pub swap : Owners → Owners
swap nobody = nobody
swap both_shared = both_shared
swap self_modified = peer_modified
swap peer_modified = self_modified

-- The specification: a read shares the page, a write takes it.
abbrev pub after_read : Owners → Owners
after_read nobody = both_shared
after_read both_shared = both_shared
after_read self_modified = self_modified
after_read peer_modified = both_shared

abbrev pub after_write : Owners → Owners
after_write o = self_modified

-- While a page is modified, no copy of the signals asks to read it, and its text is not empty.
abbrev pub Exclusive : Owners → Machine → Machine → ℕ → Type 0
Exclusive nobody a b p = Unit {0}
Exclusive both_shared a b p = Unit {0}
Exclusive self_modified a b p =
    (a.temp_data.read_signal p ≡ 0)
    × (b.temp_data.read_signal p ≡ 0)
    × (0 < a.mem (p * a.page_size))
Exclusive peer_modified a b p =
    (a.temp_data.read_signal p ≡ 0)
    × (b.temp_data.read_signal p ≡ 0)
    × (0 < b.mem (p * b.page_size))

-- The last byte of a page is a NUL on both machines.
pub record PageIs (o : Owners) (a b : Machine) (p : ℕ) : Type 0 where
  pub self_has : a.list_msi p ≡ self_flags o
  pub peer_has : b.list_msi p ≡ self_flags (swap o)
  pub exclusive : Exclusive o a b p
  pub self_ends : a.mem (p * a.page_size + (a.page_size - 1)) ≡ 0
  pub peer_ends : b.mem (p * b.page_size + (b.page_size - 1)) ≡ 0

-- Both machines map `n` pages of `s` bytes, which the array of flags covers; recv_message ends in a
-- NUL, and a read of a message takes all of it.
pub record Sized (n s : ℕ) (a b : Machine) : Type 0 where
  pub some_bytes : 1 < s
  pub self_size : a.page_size ≡ s
  pub peer_size : b.page_size ≡ s
  pub self_pages : a.mapped ≡ n
  pub peer_pages : b.mapped ≡ n
  pub self_count : a.temp_data.page_count ≡ n
  pub peer_count : b.temp_data.page_count ≡ n
  pub self_buffer : a.recv_message (s - 1) ≡ 0
  pub peer_buffer : b.recv_message (s - 1) ≡ 0
  pub self_whole : a.reads_whole ≡ true
  pub peer_whole : b.reads_whole ≡ true
  pub few : n ≤ max_size

abbrev pub Directory : Type 0
Directory = ℕ → Owners

-- Every mapped page is in the state that the directory `d` says.
pub record Coherent (n s : ℕ) (d : Directory) (a b : Machine) : Type 0 where
  pub sized : Sized n s a b
  pub pages : (p : ℕ) → p < n → PageIs (d p) a b p

-- A command that comes to its end, in a state with `P`: it neither waits for ever nor faults.
abbrev pub Ends : (Machine → Machine → List Line → Type 0) → Outcome → Type 0
Ends P (done a b out) = P a b out
Ends P (blocked a b) = ⊥
Ends P (stray a b) = ⊥
Ends P fault = ⊥

-- A text that `scanf("%[^\n]s", message)` can read into the buffer of one page, with its NUL.
pub record IsMessage (s : ℕ) (message : List ℕ) : Type 0 where
  pub fits : length message < s
  pub some_text : 0 < length message
  pub first_byte : 0 < get_or message 0 0
