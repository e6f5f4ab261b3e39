-- ===== src/S2fs/Dentry.antt =====
-- The creation of entries in Project_4/part4/s2fs.c: s2fs_make_inode, s2fs_create_dir,
-- s2fs_create_file and the walk `recursive_add`. A dentry is named by its path from the root.
pub mod Layout
pub mod Balance
pub mod Printed
use lkp.Proc.Search.{print_task}
use lkp.Proc.Text.{show, snprintf, codes}
use lkp.S2fs.File.{dead_stack, Pointer}
use lkp.S2fs.Kernel.{Kernel}
use lkp.Prelude.{◌++◌, if◌then◌else◌, ◌+◌, Option, Bool, List, ℕ, [], ◌∷◌, some, none, true, false}
use lkp.Proc.Task.{Tasks, Info, Task, task, nil, cons}

pub record Inode : Type 0 where
  pub i_ino : ℕ
  pub i_mode : ℕ
  pub i_private : Pointer

pub record Entry : Type 0 where
  pub path : List (List ℕ)
  pub is_dir : Bool
  pub inode : Inode

-- The super block: how often each allocator was called, the entries that d_add made visible (the
-- newest last), the dentries that dput gave back, and what printk wrote.
pub record Super : Type 0 where
  pub dentries : ℕ
  pub inodes : ℕ
  pub inos : ℕ
  pub added : List Entry
  pub dropped : ℕ
  pub log : List ℕ

-- snprintf(file_name, 10, "%i", task->pid)
abbrev pub file_name : Info → List ℕ
file_name i = snprintf 10 (show i.pid)

-- printk("pid %d\n", *pid)
abbrev pub print_pid : Info → List ℕ
print_pid i = codes "pid " ++ (show i.pid ++ 0x0a ∷ [])

abbrev pub put_log : ℕ → Info → Super → Super
put_log space i sb = record sb { log = sb.log ++ print_task space i }

-- What follows a call that may fault.
abbrev pub unless_fault : Option Super → (Super → Option Super) → Option Super
unless_fault none rest = none
unless_fault (some sb) rest = rest sb

module _ (k : Kernel) where
  -- `pid` is the address of a parameter of the caller, which holds the pid of the task `i`.
  unfoldable pub s2fs_make_inode : Super → ℕ → Info → Option Inode × Super
  s2fs_make_inode sb mode i =
      if k.new_inode sb.inodes
      then (
        some (record { i_ino = k.get_next_ino sb.inos; i_mode = mode; i_private = dead_stack }),
        record sb { inodes = sb.inodes + 1; inos = sb.inos + 1; log = sb.log ++ print_pid i },
      )
      else (none, record sb { inodes = sb.inodes + 1 })

  -- d_add(dentry, inode), or `out_dput` when there is no inode
  unfoldable pub add_or_put :
      List (List ℕ) → Bool → Option Inode × Super → Option (List (List ℕ)) × Super
  add_or_put path is_dir (none, sb) = (none, record sb { dropped = sb.dropped + 1 })
  add_or_put path is_dir (some i, sb) = (
    some path,
    record sb { added = sb.added ++ record { path = path; is_dir = is_dir; inode = i } ∷ [] },
  )

  -- d_alloc(parent, &qname) and what follows it; the new dentry, or `none` for a null pointer.
  unfoldable pub create :
      Bool → ℕ → Super → List (List ℕ) → List ℕ → Info → Option (List (List ℕ)) × Super
  unfolding s2fs_make_inode add_or_put
  create is_dir mode sb parent name i =
      let sb' = record sb { dentries = sb.dentries + 1 } in
      if k.d_alloc sb.dentries
      then add_or_put (parent ++ name ∷ []) is_dir (s2fs_make_inode sb' mode i)
      else (none, sb')

  -- S_IFDIR | 0644
  unfoldable pub s2fs_create_dir :
      Super → List (List ℕ) → List ℕ → Info → Option (List (List ℕ)) × Super
  s2fs_create_dir = create true 0o40644

  unfoldable pub s2fs_create_file :
      Super → List (List ℕ) → List ℕ → Info → Option (List (List ℕ)) × Super
  s2fs_create_file = create false 0x8000

  -- The entries of a task with children, behind its directory `sub_dentry`: its file, and the walk of
  -- the children. d_alloc locks the parent, so it faults when the directory could not be made.
  unfoldable pub with_children :
      Option (List (List ℕ)) × Super → Info → (Super → List (List ℕ) → Option Super) → Option Super
  with_children (none, sb1) i walk = none
  with_children (some d, sb1) i walk = walk (s2fs_create_file sb1 d (file_name i) i).1 d

  -- `none` is a fault: d_alloc locks the parent, and a parent that could not be made is null.
  unfoldable mutual
    pub recursive_add : Task → ℕ → Super → Option (List (List ℕ)) → Option Super
    recursive_add t space sb none = none
    recursive_add (task i nil) space sb (some rootd) =
        some (s2fs_create_file (put_log space i sb) rootd (file_name i) i).1
    recursive_add (task i (cons t ts)) space sb (some rootd) =
        with_children (s2fs_create_dir (put_log space i sb) rootd (file_name i) i) i
          (λ sb2 d. add_children (cons t ts) (space + 1) sb2 d)

    pub add_children : Tasks → ℕ → Super → List (List ℕ) → Option Super
    add_children nil space sb d = some sb
    add_children (cons t ts) space sb d =
        unless_fault (recursive_add t space sb (some d)) (λ sb'. add_children ts space sb' d)
