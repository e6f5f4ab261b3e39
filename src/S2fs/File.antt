-- ===== src/S2fs/File.antt =====
-- The file operations of Project_4/part4/s2fs.c: open, read and write.
pub mod Reads
use lkp.S2fs.Kernel.{Kernel}
use lkp.Prelude.Int.{pos, negsuc, ℤ}
use lkp.S2fs.Info.{tmpsize, get_task_info}
use lkp.Prelude.{
  ◌++◌, drop, take, length, ◌+◌, ◌-◌, leb, ◌==◌, ltb, if◌then◌else◌, Option, List, Bool, ℕ, [], ◌∷◌,
  some, none, true, false,
}

-- What `i_private` and `private_data` point to. `s2fs_make_inode` stores the address of a parameter
-- of its caller, which is gone when the caller returns.
pub data Pointer : Type 0 where
  null : Pointer
  dead_stack : Pointer
  cell : ℕ → Pointer  -- a live atomic_t, by its address

pub record Filp : Type 0 where
  pub name : List ℕ  -- filp->f_path.dentry->d_iname
  pub private_data : Pointer
  pub offset : ℕ

unfoldable pub s2fs_open : Pointer → Filp → ℤ × Filp
s2fs_open i_private filp = (pos 0, record filp { private_data = i_private })

abbrev pub efault : ℤ
efault = negsuc 13

abbrev pub einval : ℤ
einval = negsuc 21

-- The return value, the new offset, and the bytes in the user's buffer.
pub record Read : Type 0 where
  pub result : ℤ
  pub offset : ℕ
  pub bytes : List ℕ

-- The end of `s2fs_read_file`, for the length and the text in the buffer of `get_task_info`. `copied` is whether
-- copy_to_user succeeds. `none`: it would copy from behind the end of `tmp`.
unfoldable pub read_at : Bool → ℕ → ℕ → ℤ → List ℕ → Option Read
read_at copied count offset (negsuc n) tmp =
    some (record { result = pos 0; offset = offset; bytes = [] })
read_at copied count offset (pos len) tmp =
    if ltb len offset
    then some (record { result = pos 0; offset = offset; bytes = [] })
    else let n = if ltb (len - offset) count then len - offset else count in
      if leb (offset + n) tmpsize
      then (if copied
          then some (record {
            result = pos n;
            offset = offset + n;
            bytes = take n (drop offset (tmp ++ 0 ∷ []));
          })
          else some (record { result = efault; offset = offset; bytes = [] }))
      else none

-- kstrtoint(pid_num, 10, &pid_input), with its result ignored
abbrev pub pid_input : Kernel → List ℕ → ℤ
pid_input k name = elim (k.kstrtoint name) [ none ↦ pos 0 | some p ↦ p ]

abbrev pub read_info : Bool → ℕ → ℕ → Option (ℤ × List ℕ) → Option Read
read_info copied count offset none = none
read_info copied count offset (some (len, tmp)) = read_at copied count offset len tmp

unfoldable pub s2fs_read_file : Kernel → Bool → Filp → ℕ → Option Read
unfolding get_task_info read_at
s2fs_read_file k copied filp count =
    read_info copied count filp.offset (get_task_info k (pid_input k filp.name))

-- The outcome of a write: an error number, the count with the counter's address and new value, or a
-- store through a pointer that does not point to a counter, with that pointer.
pub data Write : Type 0 where
  error : ℤ → Write
  stored : ℕ → ℕ → ℤ → Write
  wild_store : Pointer → Write

unfoldable pub atomic_set : Pointer → ℕ → ℤ → Write
atomic_set null count v = wild_store null
atomic_set dead_stack count v = wild_store dead_stack
atomic_set (cell a) count v = stored count a v

unfoldable pub s2fs_write_file : Kernel → Bool → Filp → List ℕ → Write
unfolding atomic_set
s2fs_write_file k copied filp buf =
    if filp.offset == 0
    then (if leb tmpsize (length buf)
        then error einval
        else if copied
        then atomic_set filp.private_data (length buf) (k.simple_strtol buf)
        else error efault)
    else error einval
