-- ===== src/Proc/Search.antt =====
-- Project_4/part1/proj4.c: `recursive_search`, which prints the tree of tasks.
use lkp.Proc.Text.{show, codes}
use lkp.Proc.Task.{nil, cons, Tasks, task, Info, Task}
use lkp.Prelude.{◌+◌, ◌∷◌, ◌++◌, ◌-◌, [], List, ℕ, zero, suc}

-- for(i = 1; i < space_num; i++) printk(KERN_CONT "  "); with `n` rounds left
unfoldable pub indent : ℕ → List ℕ
indent zero = []
indent (suc n) = 0x20 ∷ 0x20 ∷ indent n

-- printk(KERN_CONT "-%s [%d]\n", task->comm, task->pid), behind the indent
unfoldable pub print_task : ℕ → Info → List ℕ
unfolding indent
print_task space i =
    indent (space - 1)
    ++ (codes "-" ++ (i.comm ++ (codes " [" ++ (show i.pid ++ (codes "]" ++ 0x0a ∷ [])))))

-- The text printed, behind `log`.
unfoldable mutual
  pub recursive_search : Task → ℕ → List ℕ → List ℕ
  recursive_search (task i ts) space log =
      search_children ts (space + 1) (log ++ print_task space i)

  pub search_children : Tasks → ℕ → List ℕ → List ℕ
  search_children nil space log = log
  search_children (cons t ts) space log = search_children ts space (recursive_search t space log)

-- The show function of the proc file: `init_task` is the root.
unfoldable pub proj4_proc_show : Task → List ℕ
unfolding recursive_search
proj4_proc_show init_task =
    recursive_search init_task 0 (codes "Loading proctree Module..." ++ 0x0a ∷ [])
