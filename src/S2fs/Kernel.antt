-- ===== src/S2fs/Kernel.antt =====
-- What Project_4/part4/s2fs.c takes from the kernel. The tree has none of this code, so it is a
-- parameter: which allocations succeed, and what the look-ups and copies answer.
use lkp.Prelude.{ℕ, Bool, List, Option}
use lkp.Prelude.Int.{ℤ}
use lkp.Proc.Task.{Info}

-- find_get_pid and pid_task: whether the pid has a `struct pid`, and the task that it names.
pub record Lookup : Type 0 where
  pub struct_pid : Bool
  pub task_pid : Option Info

pub record Kernel : Type 0 where
  pub find_pid : ℤ → Lookup
  pub kstrtoint : List ℕ → Option ℤ  -- `none`: an error, and the variable keeps its value
  pub simple_strtol : List ℕ → ℤ
  pub d_alloc : ℕ → Bool  -- whether the n-th call allocates
  pub new_inode : ℕ → Bool
  pub d_make_root : ℕ → Bool
  pub get_next_ino : ℕ → ℕ
