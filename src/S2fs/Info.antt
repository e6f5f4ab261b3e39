-- ===== src/S2fs/Info.antt =====
-- `get_task_info` of Project_4/part4/s2fs.c.
pub mod Bounds
use lkp.Prelude.Int.{negsuc, pos, ℤ}
use lkp.Proc.Task.{Mm, Info}
use lkp.S2fs.Kernel.{Kernel}
use lkp.Prelude.{length, Option, ◌++◌, Bool, ℕ, List, [], ◌∷◌, some, none, true, false}
use lkp.Proc.Text.{snprintf, show, show_int, codes}

abbrev pub tmpsize : ℕ
tmpsize = 2000

-- One "Label: value\n" of the format.
abbrev pub field : List ℕ → List ℕ → List ℕ → List ℕ
field label value rest = label ++ (value ++ 0x0a ∷ rest)

-- The text of the format string of snprintf.
unfoldable pub task_text : Info → Mm → List ℕ
task_text i mm = field (codes "Task Name: ") i.comm (
    field (codes "Task State: ") (show_int i.state) (
      field (codes "PID: ") (show i.pid) (
        field (codes "TGID: ") (show i.tgid) (
          field (codes "PPID: ") (show i.ppid) (
            field (codes "Start Time: ") (show i.start_time) (
              field (codes "Dynamic Priorty: ") (show_int i.prio) (
                field (codes "Static Priorty: ") (show i.static_prio) (
                  field (codes "Normal Priorty: ") (show_int i.normal_prio) (
                    field (codes "RTime Priorty: ") (show i.rt_priority) (
                      field (codes "Mmap Base: ") (show mm.mmap_base) (
                        field (codes "VMemory Space: ") (show mm.task_size) (
                          field (codes "VMemory Usage: ") (show mm.mm_count) (
                            field (codes "No. of VMA: ") (show mm.map_count) (
                              field (codes "Total Pages Mapped: ") (show mm.total_vm)
                                []))))))))))))))

abbrev gone_text : List ℕ
gone_text = codes "Task no longer exists" ++ 0x0a ∷ []

-- The return value, and what `data` holds before its NUL. `none` is a read through a null pointer:
-- `task_pid` itself, or the `mm` of a kernel thread.
unfoldable pub info_of : Bool → Option Info → Option (ℤ × List ℕ)
unfolding task_text
info_of struct_pid (some i) = elim i.mm [
  | none ↦ none
  | some mm ↦ some (pos (length (task_text i mm)), snprintf tmpsize (task_text i mm))
]
info_of true none = none
info_of false none = some (negsuc 0, snprintf tmpsize gone_text)

unfoldable pub get_task_info : Kernel → ℤ → Option (ℤ × List ℕ)
unfolding info_of
get_task_info k p = info_of (k.find_pid p).struct_pid (k.find_pid p).task_pid
