-- ===== src/S2fs/Dentry/Printed.antt =====
-- What `recursive_add` of Project_4/part4/s2fs.c prints: the line of each task, and behind it the pid
-- once for each entry of the task.
use lkp.Proc.Preorder.{preorder, preorder_all}
use lkp.Proc.Search.{print_task}
use lkp.Proc.Task.{Tasks, Info, Task, task, nil, cons}
use lkp.S2fs.Dentry.{print_pid}
use lkp.Prelude.{append_assoc, ◌+◌, ap, sym, ◌∙◌, ◌≡◌, ◌++◌, ℕ, List, [], ◌∷◌, refl, append-nil}
use mathlib.Core.Path.{ap₂}

pub data PrintedLine : Type 0 where
  task_line : ℕ → Info → PrintedLine
  pid_line : Info → PrintedLine

-- A task without children has a file; another has a directory and a file.
unfoldable mutual
  pub printed : ℕ → Task → List PrintedLine
  printed space (task i nil) = task_line space i ∷ pid_line i ∷ []
  printed space (task i (cons t ts)) =
      task_line space i ∷ pid_line i ∷ pid_line i ∷ printed_all (space + 1) (cons t ts)

  pub printed_all : ℕ → Tasks → List PrintedLine
  printed_all space nil = []
  printed_all space (cons t ts) = printed space t ++ printed_all space ts

abbrev pub line_text : PrintedLine → List ℕ
line_text (task_line space i) = print_task space i
line_text (pid_line i) = print_pid i

-- The log with the lines behind it.
abbrev pub put_lines : List PrintedLine → List ℕ → List ℕ
put_lines [] log = log
put_lines (l ∷ ls) log = put_lines ls (log ++ line_text l)

abbrev pub lines_text : List PrintedLine → List ℕ
lines_text [] = []
lines_text (l ∷ ls) = line_text l ++ lines_text ls

-- The lines of tasks among them.
abbrev pub task_lines : List PrintedLine → List (ℕ × Info)
task_lines [] = []
task_lines (task_line space i ∷ ls) = (space, i) ∷ task_lines ls
task_lines (pid_line i ∷ ls) = task_lines ls

pub put_lines-append :
    (xs ys : List PrintedLine) (log : List ℕ)
    → put_lines (xs ++ ys) log ≡ put_lines ys (put_lines xs log)
put_lines-append [] ys log = refl
put_lines-append (x ∷ xs) ys log = put_lines-append xs ys (log ++ line_text x)

pub put_lines_lem : (ls : List PrintedLine) (log : List ℕ) → put_lines ls log ≡ log ++ lines_text ls
put_lines_lem [] log = sym (append-nil log)
put_lines_lem (l ∷ ls) log =
    put_lines_lem ls (log ++ line_text l) ∙ append_assoc log (line_text l) (lines_text ls)

task_lines-append :
    (xs ys : List PrintedLine) → task_lines (xs ++ ys) ≡ task_lines xs ++ task_lines ys
task_lines-append [] ys = refl
task_lines-append (task_line space i ∷ xs) ys = ap (◌∷◌ (space, i)) (task_lines-append xs ys)
task_lines-append (pid_line i ∷ xs) ys = task_lines-append xs ys

-- Without the pids the walk prints as recursive_search of part 1 does.
mutual
  unfolding printed preorder

  pub task_lines-printed : (space : ℕ) (t : Task) → task_lines (printed space t) ≡ preorder space t
  task_lines-printed space (task i nil) = refl
  task_lines-printed space (task i (cons t ts)) =
      ap (◌∷◌ (space, i)) (task_lines-printed_all (space + 1) (cons t ts))

  task_lines-printed_all :
      (space : ℕ) (ts : Tasks) → task_lines (printed_all space ts) ≡ preorder_all space ts
  task_lines-printed_all space nil = refl
  task_lines-printed_all space (cons t ts) =
      task_lines-append (printed space t) (printed_all space ts)
      ∙ ap₂ ◌++◌ (task_lines-printed space t) (task_lines-printed_all space ts)
