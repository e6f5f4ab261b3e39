-- ===== src/S2fs/Examples.antt =====
-- Runs of the model of Project_4/part4/s2fs.c, and its theorems at a small tree of tasks.
use lkp.S2fs.Super.Files.{mount-cat, base_name, HasItem, HasTaskAll, HasTask}
use lkp.Proc.Preorder.{newlines, recursive_search-preorder, preorder, print_all}
use lkp.S2fs.Info.{task_text}
use lkp.S2fs.Super.{s2fs_fill_super, empty}
use lkp.Proc.Text.{codes, show}
use lkp.S2fs.Kernel.{Lookup, Kernel}
use lkp.S2fs.File.{wild_store, dead_stack, s2fs_open, null, s2fs_write_file, Filp}
use lkp.S2fs.Dentry.{Super, Entry}
use lkp.Prelude.Int.{negsuc, pos, ℤ}
use lkp.Proc.Search.{recursive_search}
use lkp.Prelude.{
  ◌+◌, ◌-◌, Option, ℕ, ltb, arith, List, ◌≡◌, length, [], ◌∷◌, some, none, true, false, zero, suc,
  refl, inl, inr,
}
use lkp.Proc.Task.{count, Task, Info, Mm, task, nil, cons}
use lkp.S2fs.Dentry
use lkp.S2fs.Dentry.Layout.{layout}
use lkp.S2fs.Dentry.Balance.{IsBalanced, given, recursive_add-IsBalanced}
use lkp.S2fs.Super.Mount.{s2fs_fill_super-Ends, Ends, s2fs_write_file-wild}
use lkp.Prelude.Pieces.{cat}
use lkp.S2fs.File.Reads.{read_named, cat-text}
use lkp.S2fs.Info.Bounds.{IsSmall}

abbrev memory : Mm
memory = record {
  mmap_base = 4096;
  task_size = 65536;
  mm_count = 1;
  map_count = 12;
  total_vm = 300;
}

abbrev named : List ℕ → ℕ → Option Mm → Info
named comm pid mm = record {
  comm = comm;
  state = pos 0;
  pid = pid;
  tgid = pid;
  ppid = 0;
  start_time = 77;
  prio = negsuc 0;
  static_prio = 120;
  normal_prio = pos 120;
  rt_priority = 0;
  mm = mm;
}

abbrev init : Info
init = named (codes "init") 1 (some memory)

abbrev kthread : Info
kthread = named (codes "kthreadd") 2 none

-- swapper, with init and kthreadd, which has a child
abbrev swapper : Task
swapper = task (named (codes "swapper") 0 none) (
    cons (task init nil)
      (cons (task kthread (cons (task (named (codes "rcu") 3 none) nil) nil)) nil))

-- pid 1 is init, pid 2 a kernel thread, and no other pid is in use
abbrev lookup_pid : ℤ → Lookup
lookup_pid (pos (suc zero)) = record { struct_pid = true; task_pid = some init }
lookup_pid (pos (suc (suc zero))) = record { struct_pid = true; task_pid = some kthread }
lookup_pid z = record { struct_pid = false; task_pid = none }

abbrev working : Kernel
working = record {
  find_pid = lookup_pid;
  kstrtoint = λ name. elim name [ [] ↦ none | c ∷ cs ↦ some (pos (c - b'0')) ];
  simple_strtol = λ _. pos 0;
  d_alloc = λ _. true;
  new_inode = λ _. true;
  d_make_root = λ _. true;
  get_next_ino = λ n. n + 1;
}

abbrev exhausted : Kernel
exhausted = record working { d_alloc = λ n. ltb n 1; new_inode = λ n. ltb n 1 }

abbrev opened : List ℕ → Filp
opened name = record { name = name; private_data = null; offset = 0 }

init-IsSmall : IsSmall init memory
init-IsSmall = omega arith

swapper_tree :
    layout [] swapper
    ≡ (codes "0" ∷ [], true)
      ∷ (codes "0" ∷ codes "0" ∷ [], false)
      ∷ (codes "0" ∷ codes "1" ∷ [], false)
      ∷ (codes "0" ∷ codes "2" ∷ [], true)
      ∷ (codes "0" ∷ codes "2" ∷ codes "2" ∷ [], false)
      ∷ (codes "0" ∷ codes "2" ∷ codes "3" ∷ [], false)
      ∷ []
unfolding layout show
swapper_tree = refl

cat-text_example :
    cat (length (task_text init memory) + 1) (read_named working (codes "1") 64) 0
    ≡ some (task_text init memory, length (task_text init memory))
cat-text_example = cat-text working (codes "1") init memory 64 refl refl init-IsSmall (omega arith)

abbrev one_file : Super
one_file = (Dentry.s2fs_create_file working empty [] (codes "1") init).1

recursive_add-IsBalanced_example :
    IsBalanced exhausted
      (Dentry.s2fs_create_file exhausted (Dentry.put_log 0 init empty) [] (codes "1") init).1
unfolding given Dentry.recursive_add show
recursive_add-IsBalanced_example =
    recursive_add-IsBalanced exhausted (task init nil) 0 empty _ [] refl refl

s2fs_fill_super-Ends_example : Ends working true (s2fs_fill_super working swapper)
s2fs_fill_super-Ends_example = s2fs_fill_super-Ends working swapper

s2fs_write_file-wild_example :
    (e : Entry) × ((Dentry.s2fs_create_file working empty [] (codes "1") init).1.added ≡ e ∷ [])
    × (s2fs_write_file working true (s2fs_open e.inode.i_private (opened (codes "1"))).1 (codes "5")
        ≡ wild_store dead_stack)
s2fs_write_file-wild_example =
    s2fs_write_file-wild working empty [] (codes "1") (codes "5") init (opened (codes "1")) refl
      refl refl (omega arith)

recursive_search-preorder_example :
    (recursive_search swapper 0 [] ≡ print_all (preorder 0 swapper))
    × (length (preorder 0 swapper) ≡ count swapper)
    × (newlines (recursive_search swapper 0 []) ≡ newlines [] + count swapper)
unfolding preorder newlines
recursive_search-preorder_example = recursive_search-preorder swapper 0 [] (omega arith)

mount-cat_example :
    (sb : Super) × (e : Entry) × (s2fs_fill_super working swapper ≡ some (pos 0, sb))
    × HasItem e sb.added
    × (e.is_dir ≡ false)
    × (cat (length (task_text init memory) + 1) (read_named working (base_name e.path) 64) 0
        ≡ some (task_text init memory, length (task_text init memory)))
unfolding HasTask HasTaskAll show
mount-cat_example =
    mount-cat working swapper init memory 64 (λ n. refl) (λ n. refl) refl refl
      (inr (inl (inl refl))) (omega arith) refl refl init-IsSmall (omega arith)
