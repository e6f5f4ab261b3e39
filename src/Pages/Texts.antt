-- ===== src/Pages/Texts.antt =====
-- What the menu of Project_3/part3/part3.c prints and stores.
use lkp.Prelude.Int.{negsuc}
use mathlib.Core.Path.{ap₂}
use lkp.Msi.Memory.Strings.{string_at-memcpy, string_at-nul, string_at-text}
use lkp.Pages.Access.{print_at, mem_write, mem_read}
use lkp.Msi.Memory.{string_at, memcpy, IsText}
use lkp.Pages.Menu.{w, pages, r, menu, Reply}
use lkp.Pages.Data.{to_int, all_pages, Process}
use lkp.Prelude.{
  ◌^◌, append-nil, [], ◌-◌, refl, zero, ◌++◌, ap, ◌∷◌, ◌∙◌, replicate, arith, ◌⊎◌, ◌*◌, ◌≤◌, none,
  ◌+◌, suc, some, ◌≡◌, length, Option, ◌<◌, List, ℕ,
}
use lkp.Pages.Ready.{
  small, page_end, mem_write-page, write_pages-copies, mem_read-page, read_pages-strings, IsReady,
  copy_all, strings_from,
}

-- `copy_all` from `l` on changes nothing below `l`.
copy_all-below :
    (n l s : ℕ) (msg : List ℕ) (mem : ℕ → ℕ) (i : ℕ) → i < l → copy_all n l s msg mem i ≡ mem i
unfolding copy_all
copy_all-below zero l s msg mem i h = refl
copy_all-below (suc n) l s msg mem i h =
    copy_all-below n (l + s) s msg (memcpy mem l msg) i (omega arith) ∙ ground arith

-- Texts shorter than a page leave the last byte of the region.
copy_all-last :
    (n l s len : ℕ) (msg : List ℕ) (mem : ℕ → ℕ)
    → length msg < s
    → l + n * s ≡ len
    → copy_all n l s msg mem (len - 1) ≡ mem (len - 1)
unfolding copy_all
copy_all-last zero l s len msg mem h e = refl
copy_all-last (suc n) l s len msg mem h e =
    copy_all-last n (l + s) s len msg (memcpy mem l msg) h (omega arith) ∙ ground arith

first_string :
    (n l s k : ℕ) (msg : List ℕ) (mem : ℕ → ℕ)
    → IsText msg
    → length msg < s
    → length msg ≤ k
    → ((i : ℕ) → l ≤ i → mem i ≡ 0)
    → string_at k (copy_all n (l + s) s msg (memcpy mem l msg)) l ≡ msg
first_string n l s k msg mem t h g e =
    string_at-text msg k after l t g (λ i u. same (l + i) (omega arith) ∙ ground arith)
    ∙ ap (λ rest. msg ++ rest)
        (string_at-nul (k - length msg) after (l + length msg)
          (same (l + length msg) (omega arith) ∙ ground (arith, e (l + length msg))))
    ∙ append-nil msg
  where
    after : ℕ → ℕ
    after = copy_all n (l + s) s msg (memcpy mem l msg)

    same : (i : ℕ) → i < l + s → after i ≡ memcpy mem l msg i
    same i u = copy_all-below n (l + s) s msg (memcpy mem l msg) i u

-- The pages of a fresh region, after the text is written to each.
strings_from-copy_all :
    (n l s len : ℕ) (msg : List ℕ) (mem : ℕ → ℕ)
    → IsText msg
    → length msg < s
    → l + n * s ≡ len
    → ((i : ℕ) → l ≤ i → mem i ≡ 0)
    → strings_from n l s len (copy_all n l s msg mem) ≡ replicate n msg
unfolding strings_from copy_all
strings_from-copy_all zero l s len msg mem t h e f = refl
strings_from-copy_all (suc n) l s len msg mem t h e f =
    ap₂ ◌∷◌ (first_string n l s (len - l) msg mem t h (omega arith) f) (
      strings_from-copy_all n (l + s) s len msg (memcpy mem l msg) t h (omega arith)
        (λ i u. ground (arith, f i)))

abbrev pub Shows : (Process → Reply → Type 0) → Option (Process × Reply) → Type 0
Shows claim none = ⊥
Shows claim (some (x, reply)) = claim x reply

abbrev with_mem : Process → (ℕ → ℕ) → Process
with_mem x m = record x { mem = m }

with_mem-IsReady : (x : Process) (m : ℕ → ℕ) → IsReady x → IsReady (with_mem x m)
with_mem-IsReady x m z = record {
  at_base = z.at_base;
  has_pages = z.has_pages;
  has_bytes = z.has_bytes;
  is_small = z.is_small;
}

menu-page :
    {x : Process} (z : IsReady x) (p : ℕ)
    → p < x.mch.pg_size
    → (e : ℕ) → p * x.page_size ≤ e
    → e < x.mch.length
    → x.mem e ≡ 0
    → menu (r p) x
      ≡ some (x, pages (string_at (x.mch.length - p * x.page_size) x.mem (p * x.page_size) ∷ []))
unfolding menu
menu-page z p h e from below nul = rw (mem_read-page z p e h from below nul) (ground (arith, h))

menu-read_all :
    {x : Process} (z : IsReady x)
    → x.mem (x.mch.length - 1) ≡ 0
    → menu (r all_pages) x
      ≡ some (x, pages (strings_from x.mch.pg_size 0 x.page_size x.mch.length x.mem))
unfolding menu mem_read
menu-read_all {x} z nul =
    ground (arith, read_pages-strings z x.mch.pg_size 0 (omega (arith, z.has_pages)) nul)

module _ {x : Process} (z : IsReady x) where
  menu-write_page :
      (p : ℕ) (msg : List ℕ)
      → p < x.mch.pg_size
      → length msg < x.page_size
      → menu (w p msg) x ≡ some (with_mem x (memcpy x.mem (p * x.page_size) msg), pages [])
  unfolding menu
  menu-write_page p msg h k = rw (mem_write-page z p msg h (omega arith)) (ground (arith, h, k))

  menu-write_all :
      (msg : List ℕ)
      → length msg < x.page_size
      → menu (w all_pages msg) x
        ≡ some (with_mem x (copy_all x.mch.pg_size 0 x.page_size msg x.mem), pages [])
  unfolding menu mem_write
  menu-write_all msg k = ground (
    arith,
    write_pages-copies z x.mch.pg_size 0 msg x.mem (omega (arith, z.has_pages)) (omega arith),
  )

  -- In a ready region, a text shorter than a page can be written to a page. Where a zero stands in
  -- the region at or behind the end of its place, reading that page then prints it in front of what
  -- stood behind it. No byte outside its place changes.
  pub menu-write_read :
      (p : ℕ) (msg : List ℕ) (e : ℕ)
      → p < x.mch.pg_size
      → IsText msg
      → length msg < x.page_size
      → p * x.page_size + length msg ≤ e
      → e < x.mch.length
      → x.mem e ≡ 0
      → Shows
          (λ y reply.
            ((i : ℕ)
              → (i < p * x.page_size) ⊎ (p * x.page_size + length msg ≤ i)
              → y.mem i ≡ x.mem i)
            × (menu (r p) y
                ≡ some (
                  y,
                  pages (
                      (msg
                        ++ string_at
                            (x.mch.length - p * x.page_size - length msg)
                            x.mem
                            (p * x.page_size + length msg))
                      ∷ []),
                )))
          (menu (w p msg) x)
  menu-write_read p msg e h t k from below nul = rw (menu-write_page p msg h k) (
    λ i u. untouched i u,
    menu-page (with_mem-IsReady x (memcpy x.mem (p * x.page_size) msg) z) p h e
          (omega (arith, from)) below (ground (arith, from, nul))
        ∙ ap (λ text. some (with_mem x (memcpy x.mem (p * x.page_size) msg), pages (text ∷ [])))
            (string_at-memcpy msg (x.mch.length - p * x.page_size) x.mem (p * x.page_size) t
              (omega (arith, page_end z p h, k))),
  )
    where
      untouched :
          (i : ℕ)
          → (i < p * x.page_size) ⊎ (p * x.page_size + length msg ≤ i)
          → memcpy x.mem (p * x.page_size) msg i ≡ x.mem i
      untouched i u = ground arith

  -- In a ready region of zeros, a text shorter than a page can be written to all pages, and reading
  -- all pages then ends and prints it once for each page.
  pub menu-write_read_all :
      (msg : List ℕ)
      → IsText msg
      → length msg < x.page_size
      → ((i : ℕ) → x.mem i ≡ 0)
      → Shows
          (λ y reply. menu (r all_pages) y ≡ some (y, pages (replicate x.mch.pg_size msg)))
          (menu (w all_pages msg) x)
  menu-write_read_all msg t h e = rw (menu-write_all msg h) (
      menu-read_all (with_mem-IsReady x (copy_all x.mch.pg_size 0 x.page_size msg x.mem) z) (
        copy_all-last x.mch.pg_size 0 x.page_size x.mch.length msg x.mem h
          (omega (arith, z.has_pages))
        ∙ e (x.mch.length - 1))
      ∙ ap (λ out. some (with_mem x (copy_all x.mch.pg_size 0 x.page_size msg x.mem), pages out))
          (strings_from-copy_all x.mch.pg_size 0 x.page_size x.mch.length msg x.mem t h
            (omega (arith, z.has_pages)) (λ i u. e i)))

to_int-negative : (n : ℕ) → 2 ^ 31 ≤ n → n < 2 ^ 32 → to_int n ≡ negsuc (2 ^ 32 - 1 - n)
unfolding to_int
to_int-negative n h k = ground arith

-- Whatever the region, reading a page whose offset is from 2 ^ 31 to 2 ^ 32 - 1 leaves it: the
-- offset is negative as an `int`.
pub menu-overflow :
    (x : Process) (p : ℕ)
    → p < x.mch.pg_size
    → p < 2 ^ 32
    → 2 ^ 31 ≤ p * x.page_size
    → p * x.page_size < 2 ^ 32
    → menu (r p) x ≡ none
unfolding menu mem_read print_at
menu-overflow x p h u v k =
    rw (small (p * x.page_size) (omega (arith, k)), to_int-negative (p * x.page_size) v k)
      (ground (arith, h, u))
