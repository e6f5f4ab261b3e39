-- ===== src/S2fs/Super/Files.antt =====
-- The mount of Project_4/part4/s2fs.c and the reads of its files together: where a task has its file.
use lkp.S2fs.File.{pid_input}
use mathlib.Core.Path.{subst}
use lkp.S2fs.Super.Mount.{s2fs_fill_super-layout}
use lkp.S2fs.File.Reads.{cat-text, read_named}
use lkp.S2fs.Super.{s2fs_fill_super}
use lkp.S2fs.Info.Bounds.{IsSmall}
use lkp.Prelude.Int.{pos}
use lkp.Proc.Task.{Task, Tasks, Info, Mm, task, nil, cons}
use lkp.Proc.Text.{show-length-le, show}
use lkp.S2fs.Kernel.{Kernel}
use lkp.S2fs.Dentry.{Entry, Super, file_name}
use lkp.S2fs.Dentry.Layout.{FilePath, layout, layout_all, view}
use lkp.S2fs.Info.{task_text}
use lkp.Prelude.Pieces.{cat}
use lkp.Prelude.{
  none, take-all, sym, ◌+◌, ℕ, Bool, true, false, List, [], ◌∷◌, ◌++◌, ◌≡◌, ◌⊎◌, inl, inr, refl, ap,
  ◌∙◌, ◌<◌, ◌^◌, length, some,
}

-- A task of the tree, by what the kernel has of it.
unfoldable mutual
  pub HasTask : Info → Task → Type 0
  HasTask i (task j ts) = (i ≡ j) ⊎ HasTaskAll i ts

  pub HasTaskAll : Info → Tasks → Type 0
  HasTaskAll i nil = ⊥
  HasTaskAll i (cons t ts) = HasTask i t ⊎ HasTaskAll i ts

abbrev pub HasItem : {A : Type 0} → A → List A → Type 0
HasItem a [] = ⊥
HasItem a (x ∷ xs) = (x ≡ a) ⊎ HasItem a xs

-- What d_iname of an entry holds.
abbrev pub base_name : FilePath → List ℕ
base_name [] = []
base_name (name ∷ []) = name
base_name (dir ∷ name ∷ path) = base_name (name ∷ path)

base_name_last : (q : FilePath) (name : List ℕ) → base_name (q ++ name ∷ []) ≡ name
base_name_last [] name = refl
base_name_last (a ∷ []) name = refl
base_name_last (a ∷ b ∷ q) name = base_name_last (b ∷ q) name

HasItem-front : {A : Type 0} (a : A) (xs ys : List A) → HasItem a xs → HasItem a (xs ++ ys)
HasItem-front a [] ys h = elim h [ ]
HasItem-front a (x ∷ xs) ys (inl e) = inl e
HasItem-front a (x ∷ xs) ys (inr h) = inr (HasItem-front a xs ys h)

HasItem-back : {A : Type 0} (a : A) (xs ys : List A) → HasItem a ys → HasItem a (xs ++ ys)
HasItem-back a [] ys h = h
HasItem-back a (x ∷ xs) ys h = inr (HasItem-back a xs ys h)

-- A task's file in the layout of a tree below `q`.
abbrev FileOf : Info → List (FilePath × Bool) → Type 0
FileOf i es = (d : FilePath) × HasItem (d ++ file_name i ∷ [], false) es

mutual
  unfolding layout HasTask HasTaskAll

  layout-FileOf : (i : Info) (q : FilePath) (t : Task) → HasTask i t → FileOf i (layout q t)
  layout-FileOf i q (task j nil) (inl e) =
      (q, inl (ap (λ x. (q ++ file_name x ∷ [], false)) (sym e)))
  layout-FileOf i q (task j nil) (inr h) = elim h [ ]
  layout-FileOf i q (task j (cons t ts)) (inl e) = (
    q ++ file_name j ∷ [],
    inr (inl (ap (λ x. ((q ++ file_name j ∷ []) ++ file_name x ∷ [], false)) (sym e))),
  )
  layout-FileOf i q (task j (cons t ts)) (inr h) =
      let (d, k) = layout_all-FileOf i (q ++ file_name j ∷ []) (cons t ts) h in (d, inr (inr k))

  layout_all-FileOf :
      (i : Info) (q : FilePath) (ts : Tasks) → HasTaskAll i ts → FileOf i (layout_all q ts)
  layout_all-FileOf i q nil h = elim h [ ]
  layout_all-FileOf i q (cons t ts) (inl h) =
      let (d, k) = layout-FileOf i q t h in (d, HasItem-front _ _ _ k)
  layout_all-FileOf i q (cons t ts) (inr h) =
      let (d, k) = layout_all-FileOf i q ts h in (d, HasItem-back _ (layout q t) _ k)

view-HasItem :
    (p : FilePath) (b : Bool) (es : List Entry)
    → HasItem (p, b) (view es)
    → (e : Entry) × HasItem e es × (e.path ≡ p) × (e.is_dir ≡ b)
view-HasItem p b [] h = elim h [ ]
view-HasItem p b (e ∷ es) (inl h) = (e, inl refl, ap (λ x. x.0) h, ap (λ x. x.1) h)
view-HasItem p b (e ∷ es) (inr h) = let (f, k, l, m) = view-HasItem p b es h in (f, inr k, l, m)

-- A mount whose allocations succeed, over a tree that has a task with an mm, numbers of at most 20
-- digits and a pid below 10 ^ 9, which is found by its pid: the file system has a file for the
-- task. Where kstrtoint reads the pid back, reading the file by its name, in pieces of any positive
-- size until read returns 0, gives the text of that task exactly once.
pub mount-cat :
    (k : Kernel) (init_task : Task) (i : Info) (mm : Mm) (count : ℕ)
    → ((n : ℕ) → k.d_alloc n ≡ true)
    → ((n : ℕ) → k.new_inode n ≡ true)
    → k.d_make_root 0 ≡ true
    → k.kstrtoint (show i.pid) ≡ some (pos i.pid)
    → HasTask i init_task
    → i.pid < 10 ^ 9
    → (k.find_pid (pos i.pid)).task_pid ≡ some i
    → i.mm ≡ some mm
    → IsSmall i mm
    → 0 < count
    → (sb : Super) × (e : Entry) × (s2fs_fill_super k init_task ≡ some (pos 0, sb))
      × HasItem e sb.added
      × (e.is_dir ≡ false)
      × (cat (length (task_text i mm) + 1) (read_named k (base_name e.path) count) 0
          ≡ some (task_text i mm, length (task_text i mm)))
mount-cat k init_task i mm count dentries inodes root reads has few found mapped small some_bytes =
    let (sb, made, v, _) = s2fs_fill_super-layout k init_task dentries inodes root in
    let (d, file) = layout-FileOf i [] init_task has in
    let (e, there, p, f) =
      view-HasItem (d ++ file_name i ∷ []) false sb.added
        (subst (HasItem (d ++ file_name i ∷ [], false)) (sym v) file) in
    let name : base_name e.path ≡ show i.pid =
      ap base_name p
      ∙ base_name_last d (file_name i)
      ∙ take-all 9 (show i.pid) (show-length-le 8 i.pid few) in
    let number : pid_input k (base_name e.path) ≡ pos i.pid =
      ap (pid_input k) name ∙ ap (λ o. elim o [ none ↦ pos 0 | some p ↦ p ]) reads in
    (
      sb,
      e,
      made,
      there,
      f,
      cat-text k (base_name e.path) i mm count (ap (λ p. (k.find_pid p).task_pid) number ∙ found)
          mapped small some_bytes,
    )
