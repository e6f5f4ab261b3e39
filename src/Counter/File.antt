-- ===== src/Counter/File.antt =====
-- The files of Project_4/part2/s2fs.c: their creation, open, read and write. An int is the number of
-- its 32 bits.
use lkp.S2fs.File.{efault, einval}
use lkp.Msi.Data.{update}
use lkp.S2fs.Super.{enomem}
use lkp.Counter.Pieces.{tmp_size, read_text}
use lkp.Prelude.Pieces.{ReadReply}
use lkp.Proc.Text.{show_int}
use lkp.Prelude.{
  length, leb, ◌-◌, ◌==◌, ◌∷◌, ◌%◌, not, ◌^◌, ◌++◌, [], ltb, if◌then◌else◌, some, none, ◌+◌, Option,
  Bool, ℕ, List,
}
use lkp.Prelude.Int.{negsuc, pos, ℤ}
pub mod Trip

-- What the calls of the kernel answer; the tree has none of this code.
pub record Kernel : Type 0 where
  pub d_alloc : Bool
  pub new_inode : Bool
  pub d_make_root : Bool
  pub simple_strtol : List ℕ → ℤ  -- for the base 10

pub record Inode : Type 0 where
  pub i_ino : ℕ
  pub i_mode : ℕ
  pub i_private : Option ℕ  -- the address of a counter, or null

abbrev s_ifdir : ℕ
s_ifdir = 0o40000

-- new_inode clears i_private; inode_init_owner(inode, NULL, S_IFDIR) sets the mode, whatever `mode` says.
unfoldable pub s2fs_get_inode : Kernel → ℕ → Option Inode
s2fs_get_inode k mode =
    if k.new_inode then some (record { i_ino = 0; i_mode = s_ifdir; i_private = none }) else none

-- The dentry that s2fs_create_file returns, if any, and how many dentries dput gave back.
pub record Created : Type 0 where
  pub dentry : Option (List ℕ × Inode)
  pub dropped : ℕ

unfoldable pub add_or_put : List ℕ → ℕ → Option Inode → Created
add_or_put name counter none = record { dentry = none; dropped = 1 }
add_or_put name counter (some i) = record {
  dentry = some (name, record i { i_private = some counter });
  dropped = 0;
}

unfoldable pub s2fs_create_file : Kernel → List ℕ → ℕ → Created
unfolding add_or_put s2fs_get_inode
s2fs_create_file k name counter =
    if k.d_alloc
    then add_or_put name counter (s2fs_get_inode k 0)
    else record { dentry = none; dropped = 0 }

-- An open file, and the counters by their address.
pub record Filp : Type 0 where
  pub private_data : Option ℕ
  pub offset : ℕ
  pub counters : ℕ → ℕ

-- open, on a new file
unfoldable pub s2fs_open : Inode → (ℕ → ℕ) → Filp
s2fs_open inode counters = record {
  private_data = inode.i_private;
  offset = 0;
  counters = counters;
}

-- The int of 32 bits.
abbrev pub signed : ℕ → ℤ
signed v = if ltb v (2 ^ 31) then pos v else negsuc (2 ^ 32 - 1 - v)

-- snprintf(tmp, TMPSIZE, "%d\n", v)
abbrev pub counter_text : ℕ → List ℕ
counter_text v = show_int (signed v) ++ 0x0a ∷ []

-- v -= 1, and atomic_inc
abbrev pub dec : ℕ → ℕ
dec v = (v + (2 ^ 32 - 1)) % 2 ^ 32

abbrev pub inc : ℕ → ℕ
inc v = (v + 1) % 2 ^ 32

abbrev pub at_offset : Filp → (ℕ → ℕ) → Option (ReadReply ℕ) → Option (ReadReply Filp)
at_offset filp counters none = none
at_offset filp counters (some r) = some (record {
  result = r.result;
  bytes = r.bytes;
  next = record filp { offset = r.next; counters = counters };
})

abbrev read_counter : Bool → ℕ → Filp → Option ℕ → Option (ReadReply Filp)
read_counter copied count filp none = none
read_counter copied count filp (some a) =
    let v = filp.counters a in
    if ltb 0 filp.offset
    then at_offset filp filp.counters (read_text copied count filp.offset (counter_text (dec v)))
    else at_offset filp (update filp.counters a (inc v))
        (read_text copied count filp.offset (counter_text v))

-- `none`: a fault.
unfoldable pub s2fs_read_file : Bool → ℕ → Filp → Option (ReadReply Filp)
s2fs_read_file copied count filp = read_counter copied count filp filp.private_data

-- A long cut to an int.
abbrev pub cut_to_int : ℤ → ℕ
cut_to_int (pos n) = n % 2 ^ 32
cut_to_int (negsuc n) = 2 ^ 32 - 1 - n % 2 ^ 32

abbrev set_counter : Filp → ℕ → Option ℕ → ℤ → Option (ReadReply Filp)
set_counter filp count none v = none
set_counter filp count (some a) v = some (record {
  result = pos count;
  bytes = [];
  next = record filp { counters = update filp.counters a (cut_to_int v) };
})

-- `buf` is the user's buffer of `count` bytes. The offset is not moved.
unfoldable pub s2fs_write_file : Kernel → Bool → List ℕ → Filp → Option (ReadReply Filp)
s2fs_write_file k copied buf filp =
    if not (filp.offset == 0)
    then some (record { result = einval; bytes = []; next = filp })
    else if leb tmp_size (length buf)
    then some (record { result = einval; bytes = []; next = filp })
    else if not copied
    then some (record { result = efault; bytes = []; next = filp })
    else set_counter filp (length buf) filp.private_data (k.simple_strtol buf)

-- s2fs_fill_super: its return value, and the inode of the root.
unfoldable pub s2fs_fill_super : Kernel → ℤ × Option Inode
unfolding s2fs_get_inode
s2fs_fill_super k = elim (s2fs_get_inode k 0) [
  | none ↦ (enomem, none)
  | some root ↦ if k.d_make_root then (pos 0, some root) else (enomem, none)
]
