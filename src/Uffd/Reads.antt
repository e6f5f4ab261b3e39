-- ===== src/Uffd/Reads.antt =====
-- What main of Project_3_new/part1/uffd.c prints and leaves, over `count` pages of 4096 bytes.
use lkp.Prelude.{zero, ◌∷◌, ◌%◌, ◌+◌, suc, ◌++◌, some, ◌*◌, true, [], ◌≡◌, ℕ, List}
use lkp.Uffd.Letters.{lettered}
use lkp.Uffd.Main.{Line, Calls}

-- `n` lines of a pass from the k-th on, one for each `step` bytes of the region.
unfoldable pub reads : ℕ → ℕ → ℕ → ℕ → ℕ → List Line
reads a pass step k zero = []
reads a pass step k (suc n) = lettered pass a (k * step) ∷ reads a pass step (k + 1) n

-- The calls before the loops succeed, over `count` pages of 4096 bytes from a page's address `a` on.
pub record Succeeds (c : Calls) (a : ℕ) (count : ℕ) : Type 0 where
  pub page_size : c.page_size ≡ 4096
  pub userfaultfd : c.userfaultfd ≡ true
  pub uffdio_api : c.uffdio_api ≡ true
  pub mmap : c.mmap (count * 4096) ≡ some a
  pub on_page : a % 4096 ≡ 0
  pub uffdio_register : c.uffdio_register a (count * 4096) ≡ true
  pub pthread_create : c.pthread_create ≡ true
  pub page : c.page ≡ true

-- The three passes: two read each page twice, the third four times.
unfoldable pub three_passes : ℕ → ℕ → List Line
three_passes a count =
    reads a 1 2048 0 (2 * count) ++ (reads a 2 2048 0 (2 * count) ++ reads a 3 1024 0 (4 * count))
