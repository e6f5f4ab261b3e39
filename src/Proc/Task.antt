-- ===== src/Proc/Task.antt =====
-- `struct task_struct`, as far as Project_4 reads it.
use lkp.Prelude.{ℕ, suc, ◌+◌, List, Option}
use lkp.Prelude.Int.{ℤ}

-- `struct mm_struct`
pub record Mm : Type 0 where
  pub mmap_base : ℕ
  pub task_size : ℕ
  pub mm_count : ℕ
  pub map_count : ℕ
  pub total_vm : ℕ

-- A kernel thread has no `mm`.
pub record Info : Type 0 where
  pub comm : List ℕ
  pub state : ℤ
  pub pid : ℕ
  pub tgid : ℕ
  pub ppid : ℕ
  pub start_time : ℕ
  pub prio : ℤ
  pub static_prio : ℕ
  pub normal_prio : ℤ
  pub rt_priority : ℕ
  pub mm : Option Mm

-- A task with its list `children`.
mutual
  pub data Task : Type 0 where
    task : Info → Tasks → Task

  pub data Tasks : Type 0 where
    nil : Tasks
    cons : Task → Tasks → Tasks

unfoldable mutual
  pub count : Task → ℕ
  count (task i ts) = suc (count_all ts)

  pub count_all : Tasks → ℕ
  count_all nil = 0
  count_all (cons t ts) = count t + count_all ts
