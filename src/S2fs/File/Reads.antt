-- ===== src/S2fs/File/Reads.antt =====
-- What the reads of a file of Project_4/part4/s2fs.c deliver.
use lkp.Prelude.Pieces.{cat, cat-drop, piece, bytes-piece, ReadReply}
use lkp.S2fs.Info.Bounds.{task_text-lt-tmpsize, IsSmall}
use lkp.Proc.Task.{Mm, Info}
use lkp.Proc.Text.{snprintf}
use lkp.S2fs.Info.{info_of, task_text, get_task_info, tmpsize}
use lkp.S2fs.File.{read_info, Read, pid_input, read_at, null, s2fs_read_file}
use lkp.S2fs.Kernel.{Kernel}
use lkp.Prelude.{
  ◌<◌, ◌∙◌, ap, ◌+◌, arith, ◌≡◌, take, ◌≤◌, length, Option, drop, List, ℕ, some, none, true, refl,
}
use lkp.Prelude.Int.{pos}

-- A read as a step from one offset to the next.
abbrev as_step : Option Read → Option (ReadReply ℕ)
as_step none = none
as_step (some r) = some (record { result = r.result; bytes = r.bytes; next = r.offset })

-- A read of `count` bytes of the file called `name`, by a program whose buffer is there.
pub read_named : Kernel → List ℕ → ℕ → ℕ → Option (ReadReply ℕ)
read_named k name count offset =
    as_step
      (s2fs_read_file k true (record { name = name; private_data = null; offset = offset }) count)

read_at-piece :
    (text : List ℕ) (count offset : ℕ)
    → length text < tmpsize
    → offset ≤ length text
    → as_step (read_at true count offset (pos (length text)) (snprintf tmpsize text))
      ≡ some (record {
        result = pos (piece count offset text);
        bytes = take (piece count offset text) (drop offset text);
        next = offset + piece count offset text;
      })
unfolding read_at
read_at-piece text count offset h k =
    rw (bytes-piece 1999 text count offset (omega arith) k) (ground arith)

-- Reading the file of a task that has an mm and numbers of at most 20 digits, in pieces of any positive
-- size until read returns 0, ends and gives the text of the task exactly once, and the offset is
-- then behind it.
pub cat-text :
    (k : Kernel) (name : List ℕ) (i : Info) (mm : Mm) (count : ℕ)
    → (k.find_pid (pid_input k name)).task_pid ≡ some i
    → i.mm ≡ some mm
    → IsSmall i mm
    → 0 < count
    → cat (length (task_text i mm) + 1) (read_named k name count) 0
      ≡ some (task_text i mm, length (task_text i mm))
unfolding get_task_info read_named s2fs_read_file
cat-text k name i mm count found has small some_bytes =
    let text = task_text i mm in
    let fits = task_text-lt-tmpsize i mm small in
    let info : get_task_info k (pid_input k name)
        ≡ some (pos (length text), snprintf tmpsize text) =
      rw (found, has, info_of) refl in
    cat-drop (read_named k name count) (λ o. o) text count some_bytes
      (λ o h. ap (λ r. as_step (read_info true count o r)) info ∙ read_at-piece text count o fits h)
      (length text + 1) 0 (omega arith) (omega arith)
