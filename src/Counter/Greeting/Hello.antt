-- ===== src/Counter/Greeting/Hello.antt =====
-- What a mount of Project_4/part3/s2fs.c holds, and what its file reads as.
use mathlib.Core.Path.{subst}
use lkp.S2fs.Super.{enomem}
use lkp.Prelude.Int.{pos}
use lkp.Counter.Pieces.{read_text-piece, tmp_size}
use lkp.Prelude.Pieces.{cat-drop, cat}
use lkp.Proc.Text.{codes}
use lkp.Prelude.{
  ◌==◌, inr, inl, sym, refl, Bool-cases, false, drop, arith, zero, leb, some, ◌+◌, true, none, ◌&&◌,
  [], ◌≤◌, suc, not, ◌∷◌, if◌then◌else◌, Bool, ◌<◌, length, ◌≡◌, List, ℕ,
}
use lkp.Counter.Greeting.{
  s2fs_open, Kernel, Entry, s2fs_fill_super, add_root, s2fs_make_inode, s2fs_create_dir, create,
  add_or_put, add_bar, s2fs_create_file, s2fs_read_file, s2fs_write_file, hello_text,
}

-- The entries of a mount: /foo and /foo/bar, as far as the allocators serve them.
abbrev pub foo : Entry
foo = record { path = codes "foo" ∷ []; inode = record { i_mode = 0o40644; i_private = none } }

abbrev pub bar : Entry
bar = record {
  path = codes "foo" ∷ codes "bar" ∷ [];
  inode = record { i_mode = 0x8000; i_private = none };
}

-- What a mount is by the calls that fail: the root's, the directory's and the file's.
abbrev pub entries : Kernel → List Entry
entries k =
    if not (k.new_inode 0 && k.d_make_root)
    then []
    else if not (k.d_alloc 0 && k.new_inode 1)
    then []
    else if not (k.d_alloc 1 && k.new_inode 2)
    then foo ∷ []
    else foo ∷ bar ∷ []

-- How many of the first `n` calls succeed.
abbrev pub succeeding : (ℕ → Bool) → ℕ → ℕ
succeeding f zero = 0
succeeding f (suc n) = succeeding f n + (if f n then 1 else 0)

-- A mount fails with -ENOMEM exactly where the root cannot be made, and otherwise returns 0 also
-- where the directory or the file is missing; the entries are the directory, then the file, the
-- file only with its directory; and every dentry that d_alloc gave is an entry or was given back.
pub fill_super-entries :
    (k : Kernel)
    → ((s2fs_fill_super k).0 ≡ (if k.new_inode 0 && k.d_make_root then pos 0 else enomem))
      × ((s2fs_fill_super k).1.added ≡ entries k)
      × (length (s2fs_fill_super k).1.added + (s2fs_fill_super k).1.dropped
          ≡ succeeding k.d_alloc (s2fs_fill_super k).1.dentries)
unfolding s2fs_fill_super add_root s2fs_make_inode s2fs_create_dir create add_or_put add_bar
    s2fs_create_file
fill_super-entries k = (ground arith, ground arith, ground arith)

-- Read in pieces of any size from any offset in it, the file gives the rest of "Hello World!" and a line
-- feed, and ends.
cat-hello_text :
    (count offset : ℕ)
    → 0 < count
    → offset ≤ 13
    → cat 14 (s2fs_read_file true count) offset ≡ some (drop offset hello_text, 13)
unfolding s2fs_read_file
cat-hello_text count offset some_bytes h =
    cat-drop (s2fs_read_file true count) (λ o. o) hello_text count some_bytes
      (λ o k. read_text-piece hello_text count o (omega arith) k) 14 offset h (omega arith)

abbrev pub Each : (Entry → Type 0) → List Entry → Type 0
Each P [] = Unit
Each P (e ∷ r) = P e × Each P r

-- The entries of regular files, which have the operations of s2fs_fops.
abbrev pub files : List Entry → List Entry
files [] = []
files (e ∷ r) = if e.inode.i_mode == 0x8000 then e ∷ files r else files r

Each-files : (k : Kernel) (P : Entry → Type 0) → P bar → Each P (files (entries k))
Each-files k P b = elim (Bool-cases (k.new_inode 0 && k.d_make_root)) [
  | inl e ↦ elim (Bool-cases (k.d_alloc 0 && k.new_inode 1)) [
    | inl e1 ↦ elim (Bool-cases (k.d_alloc 1 && k.new_inode 2)) [
      | inl e2 ↦ rw (e, e1, e2) (b, _)
      | inr e2 ↦ rw (e, e1, e2) _
    ]
    | inr e1 ↦ rw (e, e1) _
  ]
  | inr e ↦ rw e _
]

null_store :
    (k : Kernel) (buf : List ℕ) → length buf < tmp_size → s2fs_write_file k true none 0 buf ≡ none
unfolding s2fs_write_file
null_store k buf h = let short : leb tmp_size (length buf) ≡ false = ground arith in rw short refl

-- Every regular file of a mount has a null i_private, so a write of up to 16 bytes at offset 0 to the
-- opened file, whose bytes are copied in, stores through a null pointer.
pub write-faults :
    (k : Kernel) (buf : List ℕ)
    → length buf < tmp_size
    → Each
        (λ e. s2fs_write_file k true (s2fs_open e.inode) 0 buf ≡ none)
        (files (s2fs_fill_super k).1.added)
unfolding s2fs_open
write-faults k buf h =
    subst (λ es. Each (λ e. s2fs_write_file k true (s2fs_open e.inode) 0 buf ≡ none) (files es))
      (sym (fill_super-entries k).1)
      (Each-files k (λ e. s2fs_write_file k true (s2fs_open e.inode) 0 buf ≡ none)
        (null_store k buf h))
