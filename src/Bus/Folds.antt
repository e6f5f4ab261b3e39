-- ===== src/Bus/Folds.antt =====
-- The loops over all pages of Project_3/part4/part4.c: what they store and print.
use lkp.Pages.Ready.{to_int-next}
use mathlib.Core.Path.{ap₂}
use lkp.Prelude.Int.{pos, ℤ}
use lkp.Msi.Memory.{memset, memcpy}
use lkp.Bus.Single.{IsReady}
use lkp.Prelude.{
  ap, refl, ◌∙◌, some, length, ◌∷◌, ◌*◌, replicate, arith, zero, ◌^◌, ◌+◌, ◌≡◌, [], Option, ◌<◌,
  ◌≤◌, suc, ℕ, List,
}
use lkp.Bus.Access.{clear_at, copy_at, byte_at, chars_from, each_page}
use lkp.Bus.Data.{Line, char, Globals}

abbrev pub with_mem : Globals → (ℕ → ℕ) → Globals
with_mem x m = record x { mem = m }

-- The memory after `n` rounds that each change it by `f` at the start of a page.
unfoldable pub fold_pages : (ℕ → (ℕ → ℕ) → ℕ → ℕ) → ℕ → ℕ → ℕ → (ℕ → ℕ) → ℕ → ℕ
fold_pages f zero l s m = m
fold_pages f (suc n) l s m = fold_pages f n (l + s) s (f l m)

each_page-fold_pages :
    (store : ℤ → Globals → Option Globals) (f : ℕ → (ℕ → ℕ) → ℕ → ℕ) (x : Globals)
    → 0 < x.page_size
    → x.length < 2 ^ 31
    → ((l : ℕ) (m : ℕ → ℕ)
        → l + x.page_size ≤ x.length
        → store (pos l) (with_mem x m) ≡ some (with_mem x (f l m)))
    → (n l : ℕ) (m : ℕ → ℕ) → l + n * x.page_size ≡ x.length
    → each_page store n (pos l) x.length (with_mem x m)
      ≡ some (with_mem x (fold_pages f n l x.page_size m))
unfolding each_page fold_pages
each_page-fold_pages store f x h k step zero l m e = ground (arith, e)
each_page-fold_pages store f x h k step (suc n) l m e =
    rw (to_int-next l x.page_size (omega (arith, e, k))) (
      ground (
        arith,
        e,
        h,
        step l m,
        each_page-fold_pages store f x h k step n (l + x.page_size) (f l m) (omega (arith, e)),
      ))

pub fold_pages-below :
    (f : ℕ → (ℕ → ℕ) → ℕ → ℕ)
    → ((l i : ℕ) (m : ℕ → ℕ) → i < l → f l m i ≡ m i)
    → (n l s : ℕ) (m : ℕ → ℕ) (i : ℕ) → i < l
    → fold_pages f n l s m i ≡ m i
unfolding fold_pages
fold_pages-below f keep zero l s m i h = refl
fold_pages-below f keep (suc n) l s m i h =
    fold_pages-below f keep n (l + s) s (f l m) i (omega arith) ∙ keep l i m h

-- The first bytes of `n` pages.
abbrev pub chars : ℕ → ℕ → ℕ → (ℕ → ℕ) → List Line
chars zero l s m = []
chars (suc n) l s m = char (m l) ∷ chars n (l + s) s m

pub chars-fold_pages :
    (f : ℕ → (ℕ → ℕ) → ℕ → ℕ) (c : ℕ)
    → ((l i : ℕ) (m : ℕ → ℕ) → i < l → f l m i ≡ m i)
    → ((l : ℕ) (m : ℕ → ℕ) → f l m l ≡ c)
    → (n l s : ℕ) (m : ℕ → ℕ) → 0 < s
    → chars n l s (fold_pages f n l s m) ≡ replicate n (char c)
unfolding fold_pages
chars-fold_pages f c keep sets zero l s m h = refl
chars-fold_pages f c keep sets (suc n) l s m h =
    ap₂ ◌∷◌ (ap char (fold_pages-below f keep n (l + s) s (f l m) l (omega arith) ∙ sets l m))
      (chars-fold_pages f c keep sets n (l + s) s (f l m) h)

pub chars_from-chars :
    (x : Globals)
    → 0 < x.page_size
    → x.length < 2 ^ 31
    → (n l : ℕ) → l + n * x.page_size ≡ x.length
    → chars_from n (pos l) x ≡ some (chars n l x.page_size x.mem)
unfolding chars_from byte_at
chars_from-chars x h k zero l e = ground (arith, e)
chars_from-chars x h k (suc n) l e =
    rw (to_int-next l x.page_size (omega (arith, e, k)))
      (ground (arith, e, h, chars_from-chars x h k n (l + x.page_size) (omega (arith, e))))

abbrev pub clear_page : ℕ → (ℕ → ℕ) → ℕ → ℕ
clear_page l m = memset m l 0 8

abbrev pub copy_page : List ℕ → ℕ → (ℕ → ℕ) → ℕ → ℕ
copy_page message l m = memcpy m l message

pub clear_page-below : (l i : ℕ) (m : ℕ → ℕ) → i < l → clear_page l m i ≡ m i
clear_page-below l i m h = ground arith

pub copy_page-below :
    (message : List ℕ) (l i : ℕ) (m : ℕ → ℕ) → i < l → copy_page message l m i ≡ m i
copy_page-below message l i m h = ground arith

module _ {x : Globals} (z : IsReady x) (fits : 8 ≤ x.page_size) where
  pub cleared :
      (m : ℕ → ℕ)
      → each_page clear_at x.pg_size (pos 0) x.length (with_mem x m)
        ≡ some (with_mem x (fold_pages clear_page x.pg_size 0 x.page_size m))
  unfolding clear_at
  cleared m =
      each_page-fold_pages clear_at clear_page x z.has_bytes z.is_small
        (λ l m' h. ground (arith, h, fits)) x.pg_size 0 m (omega (arith, z.has_pages))

  pub copied :
      (message : List ℕ)
      → length message ≤ x.page_size
      → (m : ℕ → ℕ)
      → each_page (copy_at message) x.pg_size (pos 0) x.length (with_mem x m)
        ≡ some (with_mem x (fold_pages (copy_page message) x.pg_size 0 x.page_size m))
  unfolding copy_at
  copied message k m =
      each_page-fold_pages (copy_at message) (copy_page message) x z.has_bytes z.is_small
        (λ l m' h. ground (arith, h, k)) x.pg_size 0 m (omega (arith, z.has_pages))
