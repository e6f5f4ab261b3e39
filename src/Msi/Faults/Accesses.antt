-- ===== src/Msi/Faults/Accesses.antt =====
-- Reads and writes of the region of Project_3_new/part4/part4.c, whose pages come at the first access.
use mathlib.Core.Path.{subst}
use lkp.Msi.Faults.Demand.{
  touch-Keeps, touch_all-Keeps, There, Keeps, Returns-and_then, Returns, seen, Ready, Succeeds,
}
use lkp.Msi.Memory.{string_at, memcpy, memset}
use lkp.Prelude.{
  ◌∷◌, [], sym, length, List, zero, suc, none, Option, refl, inr, inl, ◌∙◌, arith, ◌==◌, Bool-cases,
  ap, ◌≤◌, ◌+◌, ◌*◌, true, ◌/◌, some, false, ◌≡◌, if◌then◌else◌, ℕ,
}
use lkp.Msi.Faults.{put_front, load, clear, store, and_then, touch_all, touch, Kernel, Region}

-- The region is one where the program sees `f`.
abbrev pub Sees : ℕ → Region → (ℕ → ℕ) → Region → Type 0
Sees b x f y =
    Ready b y × (y.temp_data.page_count ≡ x.temp_data.page_count) × ((i : ℕ) → seen y i ≡ f i)

with_mem-Ready : (b : ℕ) (x : Region) (m : ℕ → ℕ) → Ready b x → Ready b (record x { mem = m })
with_mem-Ready b x m r = record {
  page = r.page;
  page_size = r.page_size;
  addr = r.addr;
  some_pages = r.some_pages;
  few_pages = r.few_pages;
  fits = r.fits;
  page_num = r.page_num;
}

store-Sees :
    (k : Kernel) (b off : ℕ) (bs : List ℕ) (x : Region)
    → Succeeds k
    → Ready b x
    → off + length bs ≤ x.temp_data.page_count * 4096
    → Returns (Sees b x (memcpy (seen x) off bs)) (store k off bs x)
unfolding store
store-Sees k b off bs x s r h =
    Returns-and_then (λ y. Keeps b x y × There off (length bs) y)
      (Sees b x (memcpy (seen x) off bs)) (λ y. some (record y { mem = memcpy y.mem off bs }))
      (touch_all k (length bs) off x) (touch_all-Keeps k b (length bs) off x s r h)
      (λ y t. (
        with_mem-Ready b y (memcpy y.mem off bs) t.0.ready,
        t.0.count,
        λ i. ground (arith, t.0.same i, t.1 i),
      ))

clear-Sees :
    (k : Kernel) (b off : ℕ) (x : Region)
    → Succeeds k
    → Ready b x
    → off + 4096 ≤ x.temp_data.page_count * 4096
    → Returns (Sees b x (memset (seen x) off 0 4096)) (clear k off x)
unfolding clear
clear-Sees k b off x s r h =
    subst
      (λ n. Returns (Sees b x (memset (seen x) off 0 4096)) (
        and_then (touch_all k n off x)
          (λ y. some (record y { mem = memset y.mem off 0 y.page_size }))))
      (sym r.page_size)
      (Returns-and_then (λ y. Keeps b x y × There off 4096 y)
        (Sees b x (memset (seen x) off 0 4096))
        (λ y. some (record y { mem = memset y.mem off 0 y.page_size })) (touch_all k 4096 off x)
        (touch_all-Keeps k b 4096 off x s r h)
        (λ y t. (
          with_mem-Ready b y (memset y.mem off 0 y.page_size) t.0.ready,
          t.0.count,
          λ i. ground (arith, t.0.same i, t.1 i, t.0.ready.page_size),
        )))

-- What a load returns: the region as it was seen, and its text.
abbrev pub Loads : ℕ → Region → List ℕ → Region × List ℕ → Type 0
Loads b x text (y, s) = Sees b x (seen x) y × (s ≡ text)

put_front-Loads :
    (b : ℕ) (x y : Region) (c d : ℕ) (t u : List ℕ) (o : Option (Region × List ℕ))
    → Keeps b x y
    → c ≡ d
    → t ≡ u
    → Returns (Loads b y t) o
    → Returns (Loads b x (d ∷ u)) (put_front c o)
put_front-Loads b x y c d t u none f e g h = h
put_front-Loads b x y c d t u (some (z, s)) f e g ((r, m, same), w) =
    ((r, m ∙ f.count, λ i. same i ∙ f.same i), λ i. e i ∷ (w ∙ g) i)

load_step :
    (k : Kernel) (b n off : ℕ) (x : Region) (o : Option Region)
    → Returns (λ y. Keeps b x y × (y.present (off / 4096) ≡ true)) o
    → ((y : Region)
        → Keeps b x y
        → Returns (Loads b y (string_at n (seen y) (off + 1))) (load k n (off + 1) y))
    → Returns (Loads b x (string_at (suc n) (seen x) off)) (elim o [
      | none ↦ none
      | some y ↦
          if y.mem off == 0 then some (y, []) else put_front (y.mem off) (load k n (off + 1) y)
    ])
unfolding string_at
load_step k b n off x none h rest = h
load_step k b n off x (some y) (f, there) rest =
    let byte : y.mem off ≡ seen x off = ground (arith, f.same off, there) in
    elim (Bool-cases (y.mem off == 0)) [
      | inl e ↦
          let zero_seen : (seen x off == 0) ≡ true = ap (λ c. c == 0) (sym byte) ∙ e in
          rw (e, zero_seen) ((f.ready, f.count, f.same), refl)
      | inr e ↦
          let some_seen : (seen x off == 0) ≡ false = ap (λ c. c == 0) (sym byte) ∙ e in
          rw (e, some_seen)
            (put_front-Loads b x y (y.mem off) (seen x off) (string_at n (seen y) (off + 1))
              (string_at n (seen x) (off + 1)) (load k n (off + 1) y) f byte
              (λ i. string_at n (λ j. f.same j i) (off + 1)) (rest y f))
    ]

load-Loads :
    (k : Kernel) (b n off : ℕ) (x : Region)
    → Succeeds k
    → Ready b x
    → off + n ≤ x.temp_data.page_count * 4096
    → Returns (Loads b x (string_at n (seen x) off)) (load k n off x)
unfolding load string_at
load-Loads k b zero off x s r h = ((r, refl, λ i. refl), refl)
load-Loads k b (suc n) off x s r h =
    load_step k b n off x (touch k off x) (touch-Keeps k b off x s r (omega arith))
      (λ y f. load-Loads k b n (off + 1) y s f.ready (omega (arith, f.count, h)))

-- Where the calls of the handler succeed, an access to the region always ends, whichever pages are
-- there. The program reads the text, up to a NUL or `n` bytes, that it would read if absent pages
-- held zeros, and nothing else changes for it; a text that it stores, and a page that it clears,
-- are what it sees afterwards, and it sees the same as before everywhere else.
pub demand-Sees :
    (k : Kernel) (b off n : ℕ) (bs : List ℕ) (x : Region)
    → Succeeds k
    → Ready b x
    → off + 4096 ≤ x.temp_data.page_count * 4096
    → n ≤ 4096
    → length bs ≤ 4096
    → Returns (Loads b x (string_at n (seen x) off)) (load k n off x)
      × Returns (Sees b x (memcpy (seen x) off bs)) (store k off bs x)
      × Returns (Sees b x (memset (seen x) off 0 4096)) (clear k off x)
demand-Sees k b off n bs x s r h l m = (
  load-Loads k b n off x s r (omega arith),
  store-Sees k b off bs x s r (omega arith),
  clear-Sees k b off x s r h,
)
