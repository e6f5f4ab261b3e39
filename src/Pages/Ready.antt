-- ===== src/Pages/Ready.antt =====
-- The accesses of Project_3/part3/part3.c in a region whose length fits an `int`.
use lkp.Msi.Coherence.Rounds.{page-fits}
use lkp.Msi.Memory.{string_at, memcpy, has_nul}
use lkp.Msi.Memory.Strings.{has_nul-at}
use lkp.Prelude.Int.{pos}
use lkp.Pages.Access.{write_pages, read_pages, copy_to, print_at, mem_read, mem_write}
use lkp.Prelude.{
  true, ◌∙◌, ap, length, ◌∷◌, zero, ◌-◌, false, ◌%◌, arith, some, ◌+◌, ◌*◌, ◌^◌, ◌==◌, ◌≤◌, suc, [],
  List, ◌≡◌, ◌<◌, ℕ,
}
use lkp.Pages.Data.{all_pages, add_long, Process, to_int}

-- The region is where mch says, it has pg_size pages, and its length is below 2 ^ 31.
pub record IsReady (x : Process) : Type 0 where
  pub at_base : x.mch.addr ≡ x.base
  pub has_pages : x.mch.length ≡ x.mch.pg_size * x.page_size
  pub has_bytes : 0 < x.page_size
  pub is_small : x.mch.length < 2 ^ 31

pub to_int-small : (n : ℕ) → n < 2 ^ 31 → to_int n ≡ pos n
unfolding to_int
to_int-small n h = ground arith

pub to_int-next : (l s : ℕ) → l + s < 2 ^ 31 → to_int (add_long (pos l) s) ≡ pos (l + s)
unfolding to_int add_long
to_int-next l s h = ground arith

le-mul : (n s : ℕ) → 0 < s → n ≤ n * s
le-mul n zero h = absurd (omega arith)
le-mul n (suc s) h = omega arith

pub small : (n : ℕ) → n < 2 ^ 64 → n % 2 ^ 64 ≡ n
small n h = omega arith

-- The strings of `n` pages from the offset `l` on.
unfoldable pub strings_from : ℕ → ℕ → ℕ → ℕ → (ℕ → ℕ) → List (List ℕ)
strings_from zero l s len mem = []
strings_from (suc n) l s len mem = string_at (len - l) mem l ∷ strings_from n (l + s) s len mem

-- The memory after `msg` is copied to `n` pages.
unfoldable pub copy_all : ℕ → ℕ → ℕ → List ℕ → (ℕ → ℕ) → ℕ → ℕ
copy_all zero l s msg mem = mem
copy_all (suc n) l s msg mem = copy_all n (l + s) s msg (memcpy mem l msg)

module _ {x : Process} (z : IsReady x) where
  pub page_end : (p : ℕ) → p < x.mch.pg_size → p * x.page_size + x.page_size ≤ x.mch.length
  page_end p h = omega (arith, page-fits p x.mch.pg_size x.page_size h, z.has_pages)

  pub not_all : (p : ℕ) → p < x.mch.pg_size → p == all_pages ≡ false
  not_all p h =
      ground (arith, le-mul x.mch.pg_size x.page_size z.has_bytes, z.has_pages, z.is_small)

  pub long-offset :
      (p : ℕ) → p < x.mch.pg_size → to_int (p * x.page_size % 2 ^ 64) ≡ pos (p * x.page_size)
  long-offset p h =
      ap to_int (small (p * x.page_size) (omega (arith, page_end p h, z.is_small, z.has_bytes)))
      ∙ to_int-small (p * x.page_size) (omega (arith, page_end p h, z.is_small, z.has_bytes))

  -- A string before a zero of the region ends in it.
  ends :
      (l e : ℕ) → l ≤ e → e < x.mch.length → x.mem e ≡ 0 → has_nul (x.mch.length - l) x.mem l ≡ true
  ends l e from below nul =
      has_nul-at (x.mch.length - l) x.mem l (e - l) (omega arith) (ground arith)

  pub mem_read-page :
      (p e : ℕ)
      → p < x.mch.pg_size
      → p * x.page_size ≤ e
      → e < x.mch.length
      → x.mem e ≡ 0
      → mem_read p x
        ≡ some (string_at (x.mch.length - p * x.page_size) x.mem (p * x.page_size) ∷ [])
  unfolding mem_read print_at
  mem_read-page p e h from below nul =
      rw (not_all p h, long-offset p h)
        (ground
          (arith, z.at_base, page_end p h, z.has_bytes, ends (p * x.page_size) e from below nul))

  pub mem_write-page :
      (p : ℕ) (msg : List ℕ)
      → p < x.mch.pg_size
      → length msg ≤ x.page_size
      → mem_write p msg x ≡ some (record x { mem = memcpy x.mem (p * x.page_size) msg })
  unfolding mem_write copy_to
  mem_write-page p msg h k =
      rw (not_all p h, long-offset p h) (ground (arith, z.at_base, page_end p h, k))

  pub read_pages-strings :
      (n l : ℕ)
      → l + n * x.page_size ≡ x.mch.length
      → x.mem (x.mch.length - 1) ≡ 0
      → read_pages n (pos l) x ≡ some (strings_from n l x.page_size x.mch.length x.mem)
  unfolding read_pages strings_from print_at
  read_pages-strings zero l e nul = ground (arith, e)
  read_pages-strings (suc n) l e nul =
      rw (to_int-next l x.page_size (omega (arith, e, z.is_small))) (
        ground (
          arith,
          e,
          z.at_base,
          z.has_bytes,
          ends l (x.mch.length - 1) (omega (arith, e, z.has_bytes)) (omega (arith, e, z.has_bytes))
              nul,
          read_pages-strings n (l + x.page_size) (omega (arith, e)) nul,
        ))

  pub write_pages-copies :
      (n l : ℕ) (msg : List ℕ) (m : ℕ → ℕ)
      → l + n * x.page_size ≡ x.mch.length
      → length msg ≤ x.page_size
      → write_pages n (pos l) msg (record x { mem = m })
        ≡ some (record x { mem = copy_all n l x.page_size msg m })
  unfolding write_pages copy_all copy_to
  write_pages-copies zero l msg m e k = ground (arith, e)
  write_pages-copies (suc n) l msg m e k =
      rw (to_int-next l x.page_size (omega (arith, e, z.is_small))) (
        ground (
          arith,
          e,
          z.at_base,
          z.has_bytes,
          k,
          write_pages-copies n (l + x.page_size) msg (memcpy m l msg) (omega (arith, e)) k,
        ))
