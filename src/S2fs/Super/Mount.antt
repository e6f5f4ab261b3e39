-- ===== src/S2fs/Super/Mount.antt =====
-- What a mount of Project_4/part4/s2fs.c ends with.
use lkp.S2fs.Dentry.Balance.{IsBalanced, add-Balances, Balances, given}
use lkp.S2fs.Info.{tmpsize}
use lkp.S2fs.Dentry.Layout.{recursive_add-layout, files, layout, view}
use lkp.Prelude.Int.{ℤ, pos}
use lkp.S2fs.Dentry.{Entry, Super}
use lkp.Proc.Task.{count, Info, Task}
use lkp.S2fs.Kernel.{Kernel}
use lkp.S2fs.File.{dead_stack, wild_store, Filp, s2fs_write_file, s2fs_open}
use lkp.S2fs.Super.{add_tasks, filled, empty, enomem, s2fs_fill_super, info_at}
use lkp.Prelude.{
  if◌then◌else◌, none, ◌&&◌, Option, Bool, inr, ◌++◌, arith, inl, Bool-cases, ◌<◌, length, ◌⊎◌, ◌≡◌,
  List, ℕ, [], ◌∷◌, some, true, false, refl,
}
use lkp.S2fs.Dentry

-- The super block once the root has its inode.
abbrev root_made : Task → Super
root_made t = record empty { inodes = 1; inos = 1; log = Dentry.print_pid (info_at t) }

-- When every allocation succeeds, the mount returns 0, and the file system holds the layout of the
-- tree of tasks and nothing else, with one file for each task.
pub s2fs_fill_super-layout :
    (k : Kernel) (init_task : Task)
    → ((n : ℕ) → k.d_alloc n ≡ true)
    → ((n : ℕ) → k.new_inode n ≡ true)
    → k.d_make_root 0 ≡ true
    → (sb : Super) × (s2fs_fill_super k init_task ≡ some (pos 0, sb))
      × (view sb.added ≡ layout [] init_task)
      × (files (layout [] init_task) ≡ count init_task)
unfolding s2fs_fill_super Dentry.s2fs_make_inode
s2fs_fill_super-layout k init_task dentries inodes root =
    let (sb, e, v, f, l, _) =
      recursive_add-layout k init_task 0 (root_made init_task) [] dentries inodes in
    (sb, rw (inodes 0, root, e), v, f)

-- The end of a mount, where `root` says whether the root could be made.
abbrev pub Ends : Kernel → Bool → Option (ℤ × Super) → Type 0
Ends k root none = root ≡ true
Ends k root (some (err, sb)) =
    (err ≡ (if root then pos 0 else enomem)) × IsBalanced k sb × ((root ≡ true) ⊎ (sb.added ≡ []))

filled-Ends : (k : Kernel) (o : Option Super) → Balances k o → Ends k true (filled o)
unfolding filled
filled-Ends k none h = refl
filled-Ends k (some sb) h = (refl, h, inl refl)

-- Whichever allocations fail, a mount returns -ENOMEM and adds no entry exactly where there is no inode
-- or no dentry for the root; otherwise it returns 0 or its walk faults. If it returns, each
-- dentry that d_alloc gave is visible or was given back.
pub s2fs_fill_super-Ends :
    (k : Kernel) (init_task : Task)
    → Ends k (k.new_inode 0 && k.d_make_root 0) (s2fs_fill_super k init_task)
unfolding s2fs_fill_super add_tasks Dentry.s2fs_make_inode given
s2fs_fill_super-Ends k init_task = elim (Bool-cases (k.new_inode 0)) [
  | inl made ↦ elim (Bool-cases (k.d_make_root 0)) [
    | inl root ↦
        rw (made, root)
          (filled-Ends k (Dentry.recursive_add k init_task 0 (root_made init_task) (some []))
            (add-Balances k init_task 0 (root_made init_task) [] refl))
    | inr no_root ↦ rw (made, no_root) (refl, refl, inr refl)
  ]
  | inr failed ↦ rw failed (refl, refl, inr refl)
]

-- A write at offset 0 of fewer than TMPSIZE bytes, copied without error, to an opened file that
-- s2fs_create_file has made with both allocations stores through i_private, and that is the pointer
-- to a parameter that is gone.
pub s2fs_write_file-wild :
    (k : Kernel) (sb : Super) (q : List (List ℕ)) (name buf : List ℕ) (i : Info) (filp : Filp)
    → k.d_alloc sb.dentries ≡ true
    → k.new_inode sb.inodes ≡ true
    → filp.offset ≡ 0
    → length buf < tmpsize
    → (e : Entry) × ((Dentry.s2fs_create_file k sb q name i).1.added ≡ sb.added ++ e ∷ [])
      × (s2fs_write_file k true (s2fs_open e.inode.i_private filp).1 buf ≡ wild_store dead_stack)
unfolding Dentry.s2fs_create_file Dentry.create s2fs_open s2fs_write_file
s2fs_write_file-wild k sb q name buf i filp d n o l = (
  record {
    path = q ++ name ∷ [];
    is_dir = false;
    inode = record { i_ino = k.get_next_ino sb.inos; i_mode = 0x8000; i_private = dead_stack };
  },
  rw (d, n),
  ground arith,
)
