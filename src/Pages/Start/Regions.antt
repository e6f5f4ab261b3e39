-- ===== src/Pages/Start/Regions.antt =====
-- The regions that the two programs of Project_3/part3/part3.c start with.
use mathlib.Core.Path.{subst}
use lkp.Pages.Access.{print_at, mem_read}
use lkp.Pages.Ready.{long-offset, not_all, small, IsReady}
use lkp.Pages.Data.{Process, Stuff}
use lkp.Prelude.{arith, sym, refl, ◌^◌, none, ◌*◌, ◌<◌, ◌≢◌, true, some, ◌≡◌, Option, ℕ}
use lkp.Pages.Start.{registered, start_second, start_first, sent, Calls, start}

-- The calls of a program succeed, and its mmap of `len` bytes at `hint` gives `base`.
pub record Succeeds (c : Calls) (hint len base : ℕ) : Type 0 where
  pub fd : ℕ
  pub has_fd : c.userfaultfd ≡ some fd
  pub has_api : c.uffdio_api ≡ true
  pub registers : c.uffdio_register base len ≡ true
  pub maps : c.mmap hint len ≡ some base

-- Both regions have the page count and the address of machine 1. It can be used there, and on
-- machine 2 only if mmap took the hint: otherwise no page can be read.
abbrev pub AgreeOn : ℕ → ℕ → ℕ → Option (Process × Process) → Type 0
AgreeOn count a b none = ⊥
AgreeOn count a b (some (x, y)) =
    (x.mch.pg_size ≡ count)
    × (y.mch.pg_size ≡ count)
    × (y.mch.addr ≡ x.mch.addr)
    × (y.mch.length ≡ x.mch.length)
    × IsReady x
    × (b ≡ a → IsReady y)
    × (b ≢ a → (p : ℕ) → p < count → mem_read p y ≡ none)

abbrev pub region : ℕ → ℕ → ℕ → ℕ → ℕ → Process
region base addr count page_size fd = record {
  mch = record { addr = addr; pg_size = count; uffd = fd; length = count * page_size };
  page_size = page_size;
  base = base;
  mem = λ i. 0;
}

region-IsReady : (a count s fd : ℕ) → 0 < s → count * s < 2 ^ 31 → IsReady (region a a count s fd)
region-IsReady a count s fd h k = record {
  at_base = refl;
  has_pages = refl;
  has_bytes = h;
  is_small = k;
}

region-none :
    (b a count s fd : ℕ)
    → 0 < s
    → count * s < 2 ^ 31
    → b ≢ a
    → (p : ℕ) → p < count
    → mem_read p (region b a count s fd) ≡ none
unfolding mem_read print_at
region-none b a count s fd h k n p u =
    rw
      (
        not_all (region-IsReady a count s fd h k) p u,
        long-offset (region-IsReady a count s fd h k) p u,
      )
      (ground (arith, n))

-- What machine 1 sends.
abbrev pub sent_data : ℕ → ℕ → ℕ → Stuff
sent_data a count page_size = record {
  addr = a;
  pg_size = count;
  uffd = 0;
  length = count * page_size;
}

pub sent_lem :
    (c : Calls) (count a : ℕ)
    → count * c.page_size < 2 ^ 31
    → Succeeds c 0 (count * c.page_size) a
    → sent c count ≡ some (sent_data a count c.page_size)
unfolding sent
sent_lem c count a k f = ground (arith, small (count * c.page_size) (omega (arith, k)), f.maps)

pub start_first_lem :
    (c : Calls) (count a : ℕ)
    → count * c.page_size < 2 ^ 31
    → (f : Succeeds c 0 (count * c.page_size) a)
    → start_first c count ≡ some (region a a count c.page_size f.fd)
unfolding start_first registered
start_first_lem c count a k f =
    ground (arith, sent_lem c count a k f, f.has_fd, f.has_api, f.registers)

pub start_second_lem :
    (d : Calls) (count a b s : ℕ)
    → d.page_size ≡ s
    → count * s < 2 ^ 31
    → (g : Succeeds d a (count * s) b)
    → start_second d (sent_data a count s) ≡ some (region b a count s g.fd)
unfolding start_second registered
start_second_lem d count a b s e k g =
    ground
      (arith, e, small (count * s) (omega (arith, k)), g.has_fd, g.maps, g.has_api, g.registers)

start_lem :
    (c d : Calls) (count a b : ℕ)
    → d.page_size ≡ c.page_size
    → count * c.page_size < 2 ^ 31
    → (f : Succeeds c 0 (count * c.page_size) a) → (g : Succeeds d a (count * c.page_size) b)
    → start c d count ≡ some (region a a count c.page_size f.fd, region b a count c.page_size g.fd)
unfolding start
start_lem c d count a b e k f g = ground (
  arith,
  sent_lem c count a k f,
  start_first_lem c count a k f,
  start_second_lem d count a b c.page_size e k g,
)

pub regions-AgreeOn :
    (count a b s fd gd : ℕ)
    → 0 < s
    → count * s < 2 ^ 31
    → AgreeOn count a b (some (region a a count s fd, region b a count s gd))
regions-AgreeOn count a b s fd gd h k = (
  refl,
  refl,
  refl,
  refl,
  region-IsReady a count s fd h k,
  λ same. subst (λ u. IsReady (region u a count s gd)) (sym same) (region-IsReady a count s gd h k),
  region-none b a count s gd h k,
)

-- Where the calls of both programs succeed, the page sizes are equal and positive and the region is
-- shorter than 2 ^ 31 bytes, the two programs start with the same address and length. The region
-- of machine 1 is ready; that of machine 2 is ready if its mmap took the hint, and otherwise no
-- page of it can be read.
pub start-agree :
    (c d : Calls) (count a b : ℕ)
    → 0 < c.page_size
    → d.page_size ≡ c.page_size
    → count * c.page_size < 2 ^ 31
    → Succeeds c 0 (count * c.page_size) a
    → Succeeds d a (count * c.page_size) b
    → AgreeOn count a b (start c d count)
start-agree c d count a b h e k f g =
    rw (start_lem c d count a b e k f g) (regions-AgreeOn count a b c.page_size f.fd g.fd h k)
