-- ===== src/S2fs/Super.antt =====
-- The mount of Project_4/part4/s2fs.c: s2fs_fill_super.
pub mod Mount
pub mod Files
use lkp.Proc.Task.{Task, task, Info}
use lkp.Prelude.Int.{negsuc, pos, ℤ}
use lkp.S2fs.Kernel.{Kernel}
use lkp.S2fs.Dentry.{Inode, Super}
use lkp.Prelude.{if◌then◌else◌, Option, [], ◌∷◌, some, none, true, false}
use lkp.S2fs.Dentry

abbrev pub enomem : ℤ
enomem = negsuc 11

abbrev pub empty : Super
empty = record { dentries = 0; inodes = 0; inos = 0; added = []; dropped = 0; log = [] }

-- The end of s2fs_fill_super: its return value, with the super block. `none` is a fault.
unfoldable pub filled : Option Super → Option (ℤ × Super)
filled none = none
filled (some sb) = some (pos 0, sb)

-- d_make_root(root), and the walk
unfoldable pub add_tasks : Kernel → Task → Option Inode × Super → Option (ℤ × Super)
unfolding filled
add_tasks k init_task (none, sb) = some (enomem, sb)
add_tasks k init_task (some root, sb) =
    if k.d_make_root 0
    then filled (Dentry.recursive_add k init_task 0 sb (some []))
    else some (enomem, sb)

-- task->pid is read from init_task.
abbrev pub info_at : Task → Info
info_at (task i ts) = i

-- S_IFDIR | 0755
unfoldable pub s2fs_fill_super : Kernel → Task → Option (ℤ × Super)
unfolding add_tasks
s2fs_fill_super k init_task =
    add_tasks k init_task (Dentry.s2fs_make_inode k empty 0o40755 (info_at init_task))
