-- ===== src/S2fs/Info/Bounds.antt =====
-- The text of `get_task_info` in Project_4/part4/s2fs.c fits its buffer.
use lkp.S2fs.Info.{field, tmpsize, task_text}
use lkp.Prelude.Int.{negsuc, neg_part, pos, pos_part, ℤ}
use lkp.Proc.Task.{Mm, Info}
use lkp.Proc.Text.{codes, show-length-le, show, show_int}
use lkp.Prelude.{◌++◌, length-append, arith, ◌+◌, ◌≤◌, ◌^◌, length, ◌<◌, List, ℕ, [], ◌∷◌}

abbrev pub big : ℕ
big = 10 ^ 20

abbrev pub magnitude : ℤ → ℕ
magnitude z = pos_part z + neg_part z

-- Numbers of 64 bits have at most 20 digits, and a command name has at most 15 bytes.
pub record IsSmall (i : Info) (mm : Mm) : Type 0 where
  pub comm : length i.comm ≤ 15
  pub state : magnitude i.state < big
  pub pid : i.pid < big
  pub tgid : i.tgid < big
  pub ppid : i.ppid < big
  pub start_time : i.start_time < big
  pub prio : magnitude i.prio < big
  pub static_prio : i.static_prio < big
  pub normal_prio : magnitude i.normal_prio < big
  pub rt_priority : i.rt_priority < big
  pub mmap_base : mm.mmap_base < big
  pub task_size : mm.task_size < big
  pub mm_count : mm.mm_count < big
  pub map_count : mm.map_count < big
  pub total_vm : mm.total_vm < big

length-show : (n : ℕ) → n < big → length (show n) ≤ 20
length-show n h = show-length-le 19 n h

length-show_int : (z : ℤ) → magnitude z < big → length (show_int z) ≤ 21
unfolding show_int
length-show_int (pos n) h = omega (arith, length-show n (omega arith))
length-show_int (negsuc n) h = omega (arith, length-show (n + 1) (omega arith))

length-field :
    (label value rest : List ℕ) {r : ℕ}
    → length label ≤ 20
    → length value ≤ 21
    → length rest ≤ r
    → length (field label value rest) ≤ r + 42
length-field label value rest hl hv hr =
    omega (arith, length-append label (value ++ 0x0a ∷ rest), length-append value (0x0a ∷ rest))

-- Of a task whose numbers have at most 20 digits and whose name has at most 15 bytes, the text and its
-- NUL fit the buffer of TMPSIZE bytes, so snprintf cuts nothing.
pub task_text-lt-tmpsize : (i : Info) (mm : Mm) → IsSmall i mm → length (task_text i mm) < tmpsize
unfolding task_text
task_text-lt-tmpsize i mm h = omega (arith, all)
  where
    num : (n : ℕ) → n < big → length (show n) ≤ 21
    num n k = omega (arith, length-show n k)

    nothing : length {A = ℕ} [] ≤ 0
    nothing = omega arith

    all : length (task_text i mm) ≤ 630
    all = length-field (codes "Task Name: ") _ _ (omega arith) (omega (arith, h.comm)) (
        length-field (codes "Task State: ") _ _ (omega arith) (length-show_int i.state h.state) (
          length-field (codes "PID: ") _ _ (omega arith) (num i.pid h.pid) (
            length-field (codes "TGID: ") _ _ (omega arith) (num i.tgid h.tgid) (
              length-field (codes "PPID: ") _ _ (omega arith) (num i.ppid h.ppid) (
                length-field (codes "Start Time: ") _ _ (omega arith)
                  (num i.start_time h.start_time)
                  (length-field (codes "Dynamic Priorty: ") _ _ (omega arith)
                    (length-show_int i.prio h.prio)
                    (length-field (codes "Static Priorty: ") _ _ (omega arith)
                      (num i.static_prio h.static_prio)
                      (length-field (codes "Normal Priorty: ") _ _ (omega arith)
                        (length-show_int i.normal_prio h.normal_prio)
                        (length-field (codes "RTime Priorty: ") _ _ (omega arith)
                          (num i.rt_priority h.rt_priority)
                          (length-field (codes "Mmap Base: ") _ _ (omega arith)
                            (num mm.mmap_base h.mmap_base)
                            (length-field (codes "VMemory Space: ") _ _ (omega arith)
                              (num mm.task_size h.task_size)
                              (length-field (codes "VMemory Usage: ") _ _ (omega arith)
                                (num mm.mm_count h.mm_count)
                                (length-field (codes "No. of VMA: ") _ _ (omega arith)
                                  (num mm.map_count h.map_count)
                                  (length-field (codes "Total Pages Mapped: ") _ _ (omega arith)
                                    (num mm.total_vm h.total_vm) nothing))))))))))))))
