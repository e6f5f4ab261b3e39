-- ===== src/S2fs/Dentry/Layout.antt =====
-- What `recursive_add` of Project_4/part4/s2fs.c creates when every allocation succeeds.
use mathlib.Core.Path.{ap₂, subst}
use lkp.S2fs.File.{dead_stack}
use lkp.Proc.Preorder.{preorder}
use lkp.S2fs.Dentry.Printed.{
  printed, printed_all, put_lines, put_lines-append, put_lines_lem, lines_text, task_lines,
  task_lines-printed,
}
use lkp.S2fs.Kernel.{Kernel}
use lkp.S2fs.Dentry.{unless_fault, Entry, Super}
use lkp.Prelude.{
  append_assoc, ◌∙◌, append-nil, sym, ◌+◌, arith, ap, ◌≡◌, Option, ◌++◌, ℕ, Bool, List, [], ◌∷◌,
  some, none, true, false, refl, suc,
}
use lkp.Proc.Task.{count_all, count, Info, Tasks, Task, task, nil, cons}
use lkp.S2fs.Dentry

abbrev pub FilePath : Type 0
FilePath = List (List ℕ)

-- The entries of a task below `q`: a file, or a directory with the task's file and its children.
unfoldable mutual
  pub layout : FilePath → Task → List (FilePath × Bool)
  layout q (task i nil) = (q ++ Dentry.file_name i ∷ [], false) ∷ []
  layout q (task i (cons t ts)) =
      (q ++ Dentry.file_name i ∷ [], true)
      ∷ ((q ++ Dentry.file_name i ∷ []) ++ Dentry.file_name i ∷ [], false)
      ∷ layout_all (q ++ Dentry.file_name i ∷ []) (cons t ts)

  pub layout_all : FilePath → Tasks → List (FilePath × Bool)
  layout_all q nil = []
  layout_all q (cons t ts) = layout q t ++ layout_all q ts

-- The entries of a super block, without their inodes.
abbrev pub view : List Entry → List (FilePath × Bool)
view [] = []
view (e ∷ es) = (e.path, e.is_dir) ∷ view es

pub files : List (FilePath × Bool) → ℕ
files [] = 0
files ((q, true) ∷ rest) = files rest
files ((q, false) ∷ rest) = suc (files rest)

files-append : (xs ys : List (FilePath × Bool)) → files (xs ++ ys) ≡ files xs + files ys
unfolding files
files-append [] ys = omega arith
files-append ((q, true) ∷ xs) ys = files-append xs ys
files-append ((q, false) ∷ xs) ys = omega (arith, files-append xs ys)

view-append : (xs ys : List Entry) → view (xs ++ ys) ≡ view xs ++ view ys
view-append [] ys = refl
view-append (x ∷ xs) ys = ap (◌∷◌ (x.path, x.is_dir)) (view-append xs ys)

view-two :
    (es : List Entry) (x y : Entry)
    → view ((es ++ x ∷ []) ++ y ∷ []) ≡ view es ++ (x.path, x.is_dir) ∷ (y.path, y.is_dir) ∷ []
view-two es x y =
    view-append (es ++ x ∷ []) (y ∷ [])
    ∙ ap (λ v. v ++ (y.path, y.is_dir) ∷ []) (view-append es (x ∷ []))
    ∙ append_assoc (view es) _ _

-- A super block that has come from `sb` by adding the entries `es` and printing `text`.
record Grown (sb : Super) (es : List (FilePath × Bool)) (log : List ℕ) (sb' : Super) : Type 0 where
  entries : view sb'.added ≡ view sb.added ++ es
  text : sb'.log ≡ log

abbrev Grows : Super → List (FilePath × Bool) → List ℕ → Option Super → Type 0
Grows sb es text none = ⊥
Grows sb es text (some sb') = Grown sb es text sb'

Grows-after :
    (sb sb1 : Super) (xs ys : List (FilePath × Bool)) (text : List ℕ) (o : Option Super)
    → view sb1.added ≡ view sb.added ++ xs
    → Grows sb1 ys text o
    → Grows sb (xs ++ ys) text o
Grows-after sb sb1 xs ys text none e g = g
Grows-after sb sb1 xs ys text (some sb') e g = record {
  entries = g.entries ∙ ap (λ es. es ++ ys) e ∙ append_assoc (view sb.added) xs ys;
  text = g.text;
}

Grows-then :
    (sb : Super) (xs ys : List (FilePath × Bool)) (text : List ℕ) (print : List ℕ → List ℕ)
    (o : Option Super) (rest : Super → Option Super)
    → Grows sb xs text o
    → ((sb1 : Super) → Grows sb1 ys (print sb1.log) (rest sb1))
    → Grows sb (xs ++ ys) (print text) (unless_fault o rest)
Grows-then sb xs ys text print none rest g h = g
Grows-then sb xs ys text print (some sb1) rest g h =
    Grows-after sb sb1 xs ys (print text) (rest sb1) g.entries
      (subst (λ t. Grows sb1 ys (print t) (rest sb1)) g.text (h sb1))

module _ (k : Kernel) (dentries : (n : ℕ) → k.d_alloc n ≡ true)
    (inodes : (n : ℕ) → k.new_inode n ≡ true) where
  -- With both allocations the entry is added.
  created : Bool → ℕ → Super → FilePath → List ℕ → Info → Super
  created is_dir mode sb q name i = record sb {
    dentries = sb.dentries + 1;
    inodes = sb.inodes + 1;
    inos = sb.inos + 1;
    log = sb.log ++ Dentry.print_pid i;
    added =
        sb.added
        ++ record {
          path = q ++ name ∷ [];
          is_dir = is_dir;
          inode = record { i_ino = k.get_next_ino sb.inos; i_mode = mode; i_private = dead_stack };
        }
          ∷ [];
  }

  create-created :
      (is_dir : Bool) (mode : ℕ) (sb : Super) (q : FilePath) (name : List ℕ) (i : Info)
      → Dentry.create k is_dir mode sb q name i
        ≡ (some (q ++ name ∷ []), created is_dir mode sb q name i)
  unfolding Dentry.create created
  create-created is_dir mode sb q name i = ground (arith, dentries sb.dentries, inodes sb.inodes)

  mutual
    unfolding Dentry.recursive_add Dentry.s2fs_create_dir Dentry.s2fs_create_file
        Dentry.with_children layout printed created

    add-Grows :
        (t : Task) (space : ℕ) (sb : Super) (q : FilePath)
        → Grows sb
            (layout q t)
            (put_lines (printed space t) sb.log)
            (Dentry.recursive_add k t space sb (some q))
    add-Grows (task i nil) space sb q =
        rw (create-created false 0x8000 (Dentry.put_log space i sb) q (Dentry.file_name i) i)
          (record { entries = view-append sb.added _; text = refl })
    add-Grows (task i (cons t ts)) space sb q =
        subst
          (λ c.
            Grows sb (layout q (task i (cons t ts)))
              (put_lines (printed space (task i (cons t ts))) sb.log)
              (Dentry.with_children k c i
                (λ sb2 d. Dentry.add_children k (cons t ts) (space + 1) sb2 d)))
          (sym (create-created true 0o40644 (Dentry.put_log space i sb) q (Dentry.file_name i) i))
          (subst
            (λ c.
              Grows sb (layout q (task i (cons t ts)))
                (put_lines (printed space (task i (cons t ts))) sb.log)
                (Dentry.add_children k (cons t ts) (space + 1) c.1 (q ++ Dentry.file_name i ∷ [])))
            (sym (
              create-created false 0x8000
                (created true 0o40644 (Dentry.put_log space i sb) q (Dentry.file_name i) i)
                (q ++ Dentry.file_name i ∷ []) (Dentry.file_name i) i))
            (Grows-after sb
              (created false 0x8000
                (created true 0o40644 (Dentry.put_log space i sb) q (Dentry.file_name i) i)
                (q ++ Dentry.file_name i ∷ []) (Dentry.file_name i) i)
              (_ ∷ _ ∷ []) _ _ _ (view-two sb.added _ _)
              (add_all-Grows (cons t ts) (space + 1) _ (q ++ Dentry.file_name i ∷ []))))

    add_all-Grows :
        (ts : Tasks) (space : ℕ) (sb : Super) (q : FilePath)
        → Grows sb
            (layout_all q ts)
            (put_lines (printed_all space ts) sb.log)
            (Dentry.add_children k ts space sb q)
    add_all-Grows nil space sb q = record {
      entries = sym (append-nil (view sb.added));
      text = refl;
    }
    add_all-Grows (cons t ts) space sb q =
        subst
          (λ text.
            Grows sb (layout q t ++ layout_all q ts) text
              (Dentry.add_children k (cons t ts) space sb q))
          (sym (put_lines-append (printed space t) (printed_all space ts) sb.log))
          (Grows-then sb (layout q t) (layout_all q ts) (put_lines (printed space t) sb.log)
            (put_lines (printed_all space ts)) (Dentry.recursive_add k t space sb (some q))
            (λ sb1. Dentry.add_children k ts space sb1 q) (add-Grows t space sb q)
            (λ sb1. add_all-Grows ts space sb1 q))

mutual
  unfolding layout files count

  files_at : (t : Task) (q : FilePath) → files (layout q t) ≡ count t
  files_at (task i nil) q = refl
  files_at (task i (cons t ts)) q = ap suc (files_all (cons t ts) (q ++ Dentry.file_name i ∷ []))

  files_all : (ts : Tasks) (q : FilePath) → files (layout_all q ts) ≡ count_all ts
  files_all nil q = refl
  files_all (cons t ts) q =
      files-append (layout q t) (layout_all q ts) ∙ ap₂ ◌+◌ (files_at t q) (files_all ts q)

pub recursive_add-layout :
    (k : Kernel) (t : Task) (space : ℕ) (sb : Super) (q : FilePath)
    → ((n : ℕ) → k.d_alloc n ≡ true)
    → ((n : ℕ) → k.new_inode n ≡ true)
    → (sb' : Super) × (Dentry.recursive_add k t space sb (some q) ≡ some sb')
      × (view sb'.added ≡ view sb.added ++ layout q t)
      × (files (layout q t) ≡ count t)
      × (sb'.log ≡ sb.log ++ lines_text (printed space t))
      × (task_lines (printed space t) ≡ preorder space t)
recursive_add-layout k t space sb q dentries inodes =
    finish (Dentry.recursive_add k t space sb (some q)) refl
      (add-Grows k dentries inodes t space sb q)
  where
    finish :
        (o : Option Super)
        → Dentry.recursive_add k t space sb (some q) ≡ o
        → Grows sb (layout q t) (put_lines (printed space t) sb.log) o
        → (sb' : Super) × (Dentry.recursive_add k t space sb (some q) ≡ some sb')
          × (view sb'.added ≡ view sb.added ++ layout q t)
          × (files (layout q t) ≡ count t)
          × (sb'.log ≡ sb.log ++ lines_text (printed space t))
          × (task_lines (printed space t) ≡ preorder space t)
    finish none e g = elim g [ ]
    finish (some sb') e g = (
      sb',
      e,
      g.entries,
      files_at t q,
      g.text ∙ put_lines_lem (printed space t) sb.log,
      task_lines-printed space t,
    )
