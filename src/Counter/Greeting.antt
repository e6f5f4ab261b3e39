-- ===== src/Counter/Greeting.antt =====
-- Project_4/part3/s2fs.c: the inodes, the entries, the file's operations and s2fs_fill_super.
pub mod Hello
use lkp.S2fs.File.{efault, einval}
use lkp.Proc.Text.{codes}
use lkp.S2fs.Super.{enomem}
use lkp.Counter.Pieces.{tmp_size, read_text}
use lkp.Prelude.Pieces.{ReadReply}
use lkp.Prelude.Int.{pos, ℤ}
use lkp.Prelude.{
  length, leb, ◌==◌, ◌∷◌, not, ◌++◌, none, some, if◌then◌else◌, ◌+◌, [], ℕ, Option, Bool, List,
}

-- What the calls of the kernel answer, by the number of the call; the tree has none of this code.
pub record Kernel : Type 0 where
  pub d_alloc : ℕ → Bool
  pub new_inode : ℕ → Bool
  pub d_make_root : Bool
  pub simple_strtol : List ℕ → ℤ  -- for the base 10

-- new_inode clears i_private, and nothing sets it.
pub record Inode : Type 0 where
  pub i_mode : ℕ
  pub i_private : Option ℕ

pub record Entry : Type 0 where
  pub path : List (List ℕ)
  pub inode : Inode

-- How often the allocators were called, the entries that d_add made visible, the newest last, and how
-- many dentries dput gave back.
pub record Super : Type 0 where
  pub dentries : ℕ
  pub inodes : ℕ
  pub added : List Entry
  pub dropped : ℕ

abbrev pub empty : Super
empty = record { dentries = 0; inodes = 0; added = []; dropped = 0 }

-- filp->private_data behind open
unfoldable pub s2fs_open : Inode → Option ℕ
s2fs_open inode = inode.i_private

module _ (k : Kernel) where
  unfoldable pub s2fs_make_inode : Super → ℕ → Option Inode × Super
  s2fs_make_inode sb mode = (
    if k.new_inode sb.inodes then some (record { i_mode = mode; i_private = none }) else none,
    record sb { inodes = sb.inodes + 1 },
  )

  -- d_add(dentry, inode), or `out_dput`; the dentry is its path.
  unfoldable pub add_or_put : List (List ℕ) → Option Inode × Super → Option (List (List ℕ)) × Super
  add_or_put path (none, sb) = (none, record sb { dropped = sb.dropped + 1 })
  add_or_put path (some i, sb) =
      (some path, record sb { added = sb.added ++ record { path = path; inode = i } ∷ [] })

  -- d_alloc(dentry, &qname) and what follows.
  unfoldable pub create : ℕ → Super → List (List ℕ) → List ℕ → Option (List (List ℕ)) × Super
  unfolding s2fs_make_inode add_or_put
  create mode sb parent name =
      let sb' = record sb { dentries = sb.dentries + 1 } in
      if k.d_alloc sb.dentries
      then add_or_put (parent ++ name ∷ []) (s2fs_make_inode sb' mode)
      else (none, sb')

  -- S_IFDIR | 0644
  unfoldable pub s2fs_create_dir : Super → List (List ℕ) → List ℕ → Option (List (List ℕ)) × Super
  unfolding create
  s2fs_create_dir = create 0o40644

  unfoldable pub s2fs_create_file : Super → List (List ℕ) → List ℕ → Option (List (List ℕ)) × Super
  unfolding create
  s2fs_create_file = create 0x8000

  -- The file "bar" below the directory, if there is one.
  unfoldable pub add_bar : Option (List (List ℕ)) × Super → Super
  unfolding s2fs_create_file
  add_bar (none, sb) = sb
  add_bar (some d, sb) = (s2fs_create_file sb d (codes "bar")).1

  unfoldable pub add_root : Option Inode × Super → ℤ × Super
  unfolding s2fs_create_dir add_bar
  add_root (none, sb) = (enomem, sb)
  add_root (some root, sb) =
      if k.d_make_root then (pos 0, add_bar (s2fs_create_dir sb [] (codes "foo"))) else (enomem, sb)

  -- S_IFDIR | 0755
  unfoldable pub s2fs_fill_super : ℤ × Super
  unfolding s2fs_make_inode add_root
  s2fs_fill_super = add_root (s2fs_make_inode empty 0o40755)

  -- `none`: a store through a null pointer.
  unfoldable pub s2fs_write_file : Bool → Option ℕ → ℕ → List ℕ → Option (ℤ × Option (ℕ × ℤ))
  s2fs_write_file copied private_data offset buf =
      if not (offset == 0)
      then some (einval, none)
      else if leb tmp_size (length buf)
      then some (einval, none)
      else if not copied
      then some (efault, none)
      else elim private_data [
        | none ↦ none
        | some a ↦ some (pos (length buf), some (a, k.simple_strtol buf))
      ]

-- snprintf(tmp, TMPSIZE, "%s\n", hello)
abbrev pub hello_text : List ℕ
hello_text = codes "Hello World!" ++ 0x0a ∷ []

-- The state is the offset; `none`: a fault.
unfoldable pub s2fs_read_file : Bool → ℕ → ℕ → Option (ReadReply ℕ)
s2fs_read_file copied count offset = read_text copied count offset hello_text
