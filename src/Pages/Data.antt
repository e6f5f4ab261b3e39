-- ===== src/Pages/Data.antt =====
-- The globals of Project_3/part3/part3.c.
use lkp.Prelude.Int.{negsuc, pos, ℤ}
use lkp.Prelude.{suc, ◌%◌, ◌+◌, ◌-◌, ltb, if◌then◌else◌, ◌^◌, ℕ}

pub record Stuff : Type 0 where
  pub addr : ℕ
  pub pg_size : ℕ
  pub uffd : ℕ
  pub length : ℕ

-- `base` is where the region is mapped, `mem` its bytes.
pub record Process : Type 0 where
  pub mch : Stuff
  pub page_size : ℕ
  pub base : ℕ
  pub mem : ℕ → ℕ

-- The conversion of an `unsigned long` to the 32-bit `int l`.
unfoldable pub to_int : ℕ → ℤ
to_int n = if ltb (n % 2 ^ 32) (2 ^ 31) then pos (n % 2 ^ 32) else negsuc (2 ^ 32 - 1 - n % 2 ^ 32)

-- The sum of an `int` and an `unsigned long`, as an `unsigned long`.
unfoldable pub add_long : ℤ → ℕ → ℕ
add_long (pos l) n = (l + n) % 2 ^ 64
add_long (negsuc l) n = (2 ^ 64 - suc l + n) % 2 ^ 64

-- -1 as an `unsigned long`
abbrev pub all_pages : ℕ
all_pages = 2 ^ 64 - 1
