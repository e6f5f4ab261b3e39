-- ===== src/S2fs/Dentry/Balance.antt =====
-- Failing allocations in Project_4/part4/s2fs.c: no dentry is lost, but a directory that cannot be
-- made is used all the same.
use native.Mathlib.Numerals.{add-one}
use mathlib.Core.Path.{subst}
use lkp.S2fs.Dentry.{Super}
use lkp.S2fs.Kernel.{Kernel}
use lkp.Prelude.{
  ◌⊎◌, length-append, ◌∙◌, arith, inr, inl, if◌then◌else◌, length, Bool-cases, List, ◌+◌, ◌≡◌, Bool,
  ℕ, Option, some, none, true, false, refl, suc, zero,
}
use lkp.Proc.Task.{Tasks, Info, Task, task, nil, cons}
use lkp.S2fs.Dentry

-- How many of the first `n` calls of d_alloc gave a dentry.
unfoldable pub given : Kernel → ℕ → ℕ
given k zero = 0
given k (suc n) = given k n + (if k.d_alloc n then 1 else 0)

given-next : (k : Kernel) (n : ℕ) → given k (n + 1) ≡ given k n + (if k.d_alloc n then 1 else 0)
unfolding given
given-next k n = rw add-one

given-yes : (k : Kernel) (n : ℕ) → k.d_alloc n ≡ true → given k (n + 1) ≡ given k n + 1
given-yes k n e = given-next k n ∙ rw e

given-no : (k : Kernel) (n : ℕ) → k.d_alloc n ≡ false → given k (n + 1) ≡ given k n
given-no k n e = given-next k n ∙ rw e (omega arith)

-- Every dentry that was given is visible, or was given back.
abbrev pub IsBalanced : Kernel → Super → Type 0
IsBalanced k sb = given k sb.dentries ≡ length sb.added + sb.dropped

abbrev pub Balances : Kernel → Option Super → Type 0
Balances k none = Unit
Balances k (some sb) = IsBalanced k sb

create-IsBalanced :
    (k : Kernel) (is_dir : Bool) (mode : ℕ) (sb : Super) (q : List (List ℕ)) (name : List ℕ)
    (i : Info)
    → IsBalanced k sb
    → IsBalanced k (Dentry.create k is_dir mode sb q name i).1
unfolding Dentry.create
create-IsBalanced k is_dir mode sb q name i h = elim (Bool-cases (k.d_alloc sb.dentries)) [
  | inl yes_dentry ↦ elim (Bool-cases (k.new_inode sb.inodes)) [
    | inl yes_inode ↦
        rw (yes_dentry, yes_inode)
          (omega (arith, given-yes k sb.dentries yes_dentry, length-append {0} sb.added))
    | inr no_inode ↦ rw (yes_dentry, no_inode) (omega (arith, given-yes k sb.dentries yes_dentry))
  ]
  | inr no_dentry ↦ rw no_dentry (omega (arith, given-no k sb.dentries no_dentry))
]

Balances-then :
    (k : Kernel) (o : Option Super) (rest : Super → Option Super)
    → Balances k o
    → ((sb : Super) → IsBalanced k sb → Balances k (rest sb))
    → Balances k (Dentry.unless_fault o rest)
Balances-then k none rest h f = tt
Balances-then k (some sb) rest h f = f sb h

Balances-with_children :
    (k : Kernel) (made : Option (List (List ℕ)) × Super) (i : Info)
    (walk : Super → List (List ℕ) → Option Super)
    → IsBalanced k made.1
    → ((sb : Super) (d : List (List ℕ)) → IsBalanced k sb → Balances k (walk sb d))
    → Balances k (Dentry.with_children k made i walk)
unfolding Dentry.with_children Dentry.s2fs_create_file
Balances-with_children k (none, sb1) i walk h f = tt
Balances-with_children k (some d, sb1) i walk h f =
    f _ d (create-IsBalanced k false 0x8000 sb1 d (Dentry.file_name i) i h)

module _ (k : Kernel) where
  mutual
    unfolding Dentry.recursive_add Dentry.s2fs_create_dir Dentry.s2fs_create_file

    pub add-Balances :
        (t : Task) (space : ℕ) (sb : Super) (q : List (List ℕ))
        → IsBalanced k sb
        → Balances k (Dentry.recursive_add k t space sb (some q))
    add-Balances (task i nil) space sb q h =
        create-IsBalanced k false 0x8000 (Dentry.put_log space i sb) q (Dentry.file_name i) i h
    add-Balances (task i (cons t ts)) space sb q h =
        Balances-with_children k _ i _
          (create-IsBalanced k true 0o40644 (Dentry.put_log space i sb) q (Dentry.file_name i) i h)
          (λ sb2 d h2. add_all-Balances (cons t ts) (space + 1) sb2 d h2)

    add_all-Balances :
        (ts : Tasks) (space : ℕ) (sb : Super) (d : List (List ℕ))
        → IsBalanced k sb
        → Balances k (Dentry.add_children k ts space sb d)
    add_all-Balances nil space sb d h = h
    add_all-Balances (cons t ts) space sb d h =
        Balances-then k (Dentry.recursive_add k t space sb (some d)) _ (add-Balances t space sb d h)
          (λ sb' h'. add_all-Balances ts space sb' d h')

-- Whichever allocations fail, a walk that does not fault has lost no dentry: each one that d_alloc
-- gave is visible or was given back by dput, if that was so before.
pub recursive_add-IsBalanced :
    (k : Kernel) (t : Task) (space : ℕ) (sb sb' : Super) (q : List (List ℕ))
    → IsBalanced k sb
    → Dentry.recursive_add k t space sb (some q) ≡ some sb'
    → IsBalanced k sb'
recursive_add-IsBalanced k t space sb sb' q h e =
    subst (Balances k) e (add-Balances k t space sb q h)

create-fails :
    (k : Kernel) (is_dir : Bool) (mode : ℕ) (sb : Super) (q : List (List ℕ)) (name : List ℕ)
    (i : Info)
    → (k.d_alloc sb.dentries ≡ false) ⊎ (k.new_inode sb.inodes ≡ false)
    → (Dentry.create k is_dir mode sb q name i).0 ≡ none
unfolding Dentry.create
create-fails k is_dir mode sb q name i h = ground arith

with_children-none :
    (k : Kernel) (made : Option (List (List ℕ)) × Super) (i : Info)
    (walk : Super → List (List ℕ) → Option Super)
    → made.0 ≡ none
    → Dentry.with_children k made i walk ≡ none
unfolding Dentry.with_children
with_children-none k (none, sb1) i walk e = refl
with_children-none k (some d, sb1) i walk e = cc

-- A task with children whose directory cannot be made, for want of a dentry or of an inode, makes
-- the walk fault: the null pointer is taken for the parent of the task's own file.
pub recursive_add-faults :
    (k : Kernel) (i : Info) (t : Task) (ts : Tasks) (space : ℕ) (sb : Super) (q : List (List ℕ))
    → (k.d_alloc sb.dentries ≡ false) ⊎ (k.new_inode sb.inodes ≡ false)
    → Dentry.recursive_add k (task i (cons t ts)) space sb (some q) ≡ none
unfolding Dentry.recursive_add Dentry.s2fs_create_dir
recursive_add-faults k i t ts space sb q h =
    with_children-none k _ i _
      (create-fails k true 0o40644 (Dentry.put_log space i sb) q (Dentry.file_name i) i h)
