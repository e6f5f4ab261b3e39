-- ===== src/Msi/Faults/Demand.antt =====
-- The region of Project_3_new/part4/part4.c as its program sees it.
use lkp.Msi.Faults.Mask.{destination-page}
use lkp.Msi.Memory.{memset}
use lkp.Msi.Data.{max_size}
use lkp.Prelude.Int.{pos}
use lkp.Pages.Handler.{is_none_read, is_negative_one}
use lkp.Prelude.{
  zero, suc, ◌%◌, none, Option, refl, ◌-◌, inr, inl, ◌∙◌, arith, ◌==◌, Bool-cases, ap, ◌^◌, ◌≤◌,
  ◌+◌, ◌<◌, ◌*◌, true, ◌/◌, some, false, ◌≡◌, if◌then◌else◌, ℕ,
}
use lkp.Msi.Faults.{
  and_then, touch_all, fault_round, destination, touch, copy_round, clear_buffer, copy_page, Kernel,
  Region,
}

-- The kernel as it is documented: calls succeed, a fault is reported at the start of its page, and a copy to
-- the start of a page succeeds.
pub record Succeeds (k : Kernel) : Type 0 where
  pub polls : (n : ℕ) → is_negative_one (k.nready n) ≡ false
  pub some_read : (n : ℕ) → is_none_read (k.nread n) ≡ false
  pub reads : (n : ℕ) → is_negative_one (k.nread n) ≡ false
  pub pagefault : (n : ℕ) → k.is_pagefault n ≡ true
  pub address : (q i : ℕ) → i < 4096 → k.address (q * 4096 + i) ≡ q * 4096
  pub copies : (q : ℕ) → k.copies (q * 4096) ≡ true

-- A region of pages of 4096 bytes from the page `b` on, with a page count of 1 to 4096, and zeros in the
-- handler's buffer.
pub record Ready (b : ℕ) (x : Region) : Type 0 where
  pub page : (i : ℕ) → x.page i ≡ 0
  pub page_size : x.page_size ≡ 4096
  pub addr : x.addr ≡ b * 4096
  pub some_pages : 0 < x.temp_data.page_count
  pub few_pages : x.temp_data.page_count ≤ 4096
  pub fits : b * 4096 + x.temp_data.page_count * 4096 ≤ 2 ^ 64
  pub page_num : (p : ℕ) × (x.temp_data.page_num ≡ pos p) × (p < max_size)

-- What the program reads at an offset: a page that is not there reads as zeros.
abbrev pub seen : Region → ℕ → ℕ
seen x i = if x.present (i / 4096) then x.mem i else 0

pub record Keeps (b : ℕ) (x y : Region) : Type 0 where
  pub ready : Ready b y
  pub count : y.temp_data.page_count ≡ x.temp_data.page_count
  pub same : (i : ℕ) → seen y i ≡ seen x i
  pub there : (q : ℕ) → x.present q ≡ true → y.present q ≡ true

-- The region behind the handler's memset of its buffer.
abbrev cleared : ℕ → Region → Region
cleared p x =
    if x.temp_data.pagefault_signal p == 1
    then record x { page = memset x.page 0 0 x.page_size }
    else x

clear_buffer-cleared :
    (p : ℕ) (x : Region)
    → x.temp_data.page_num ≡ pos p
    → p < max_size
    → clear_buffer x ≡ some (cleared p x)
unfolding clear_buffer
clear_buffer-cleared p x e h = ground (arith, e, h)

cleared-Keeps :
    (b p : ℕ) (x : Region)
    → Ready b x
    → Keeps b x (cleared p x) × ((cleared p x).present ≡ x.present) × ((cleared p x).addr ≡ x.addr)
cleared-Keeps b p x r = elim (Bool-cases (x.temp_data.pagefault_signal p == 1)) [
  | inl e ↦ rw e (
    record {
      ready = record {
        page = λ i. ground (arith, r.page i);
        page_size = r.page_size;
        addr = r.addr;
        some_pages = r.some_pages;
        few_pages = r.few_pages;
        fits = r.fits;
        page_num = r.page_num;
      };
      count = refl;
      same = λ i. refl;
      there = λ q h. h;
    },
    refl,
    refl,
  )
  | inr e ↦
      rw e (record { ready = r; count = refl; same = λ i. refl; there = λ q h. h }, refl, refl)
]

copy_page-Keeps :
    (b q : ℕ) (x : Region)
    → Ready b x
    → x.present q ≡ false
    → Keeps b x (copy_page (q * 4096) x) × ((copy_page (q * 4096) x).present q ≡ true)
unfolding copy_page
copy_page-Keeps b q x r absent =
    let number : q * 4096 / x.page_size ≡ q = ap (λ s. q * 4096 / s) r.page_size ∙ omega arith in
    (
      record {
        ready = record {
          page = r.page;
          page_size = r.page_size;
          addr = r.addr;
          some_pages = r.some_pages;
          few_pages = r.few_pages;
          fits = r.fits;
          page_num = r.page_num;
        };
        count = refl;
        same = λ i. ground (arith, number, absent, r.page_size, r.page (i - q * 4096));
        there = λ p h. ground (arith, h);
      },
      ground (arith, number),
    )

-- The region comes back, and it is such.
abbrev pub Returns : {A : Type 0} → (A → Type 0) → Option A → Type 0
Returns P none = ⊥
Returns P (some a) = P a

copy_round-some :
    (k : Kernel) (b q i : ℕ) (x : Region)
    → Succeeds k
    → Ready b x
    → q < x.temp_data.page_count
    → i < 4096
    → copy_round k ((b + q) * 4096 + i) (some x) ≡ some (copy_page (q * 4096) x)
unfolding copy_round
copy_round-some k b q i x s r h j =
    let dst : destination ((b + q) * 4096) x.temp_data.page_count ≡ (b + q) * 4096 =
      destination-page (b + q) x.temp_data.page_count (omega (arith, r.fits)) r.some_pages
        r.few_pages in
    let off : (b + q) * 4096 - x.addr ≡ q * 4096 = omega (arith, r.addr) in
    rw
      (
        s.address (b + q) i j,
        s.some_read x.rounds,
        s.reads x.rounds,
        s.pagefault x.rounds,
        dst,
        s.copies (b + q),
        off,
      )
      refl

pub Keeps-trans : (b : ℕ) (x y z : Region) → Keeps b x y → Keeps b y z → Keeps b x z
Keeps-trans b x y z f g = record {
  ready = g.ready;
  count = g.count ∙ f.count;
  same = λ i. g.same i ∙ f.same i;
  there = λ q h. g.there q (f.there q h);
}

fault_round-some :
    (k : Kernel) (b off p : ℕ) (x : Region)
    → Succeeds k
    → Ready b x
    → off < x.temp_data.page_count * 4096
    → x.temp_data.page_num ≡ pos p
    → p < max_size
    → fault_round k (x.addr + off) x ≡ some (copy_page (off / 4096 * 4096) (cleared p x))
unfolding fault_round
fault_round-some k b off p x s r h e t =
    let (z, same, base) = cleared-Keeps b p x r in
    let address : x.addr + off ≡ (b + off / 4096) * 4096 + off % 4096 = omega (arith, r.addr) in
    rw (s.polls x.rounds, clear_buffer-cleared p x e t, address)
      (copy_round-some k b (off / 4096) (off % 4096) (cleared p x) s z.ready
        (omega (arith, z.count)) (omega arith))

pub touch-Keeps :
    (k : Kernel) (b off : ℕ) (x : Region)
    → Succeeds k
    → Ready b x
    → off < x.temp_data.page_count * 4096
    → Returns (λ y. Keeps b x y × (y.present (off / 4096) ≡ true)) (touch k off x)
unfolding touch
touch-Keeps k b off x s r h =
    let number = ap (λ n. x.present (off / n)) r.page_size in
    let (p, e, t) = r.page_num in
    let (z, same, base) = cleared-Keeps b p x r in
    elim (Bool-cases (x.present (off / 4096))) [
      | inl there ↦
          rw (number, there)
            (record { ready = r; count = refl; same = λ i. refl; there = λ q h. h }, there)
      | inr absent ↦
          let (f, now) =
            copy_page-Keeps b (off / 4096) (cleared p x) z.ready
              (ap (λ u. u (off / 4096)) same ∙ absent) in
          rw (number, absent, fault_round-some k b off p x s r h e t)
            (Keeps-trans b x (cleared p x) (copy_page (off / 4096 * 4096) (cleared p x)) z f, now)
    ]

pub Returns-and_then :
    (P Q : Region → Type 0) (f : Region → Option Region) (o : Option Region)
    → Returns P o
    → ((y : Region) → P y → Returns Q (f y))
    → Returns Q (and_then o f)
Returns-and_then P Q f none h g = h
Returns-and_then P Q f (some y) h g = g y h

pub Returns-map :
    {A : Type 0} (P Q : A → Type 0) (o : Option A)
    → Returns P o
    → ((y : A) → P y → Q y)
    → Returns Q o
Returns-map P Q none h g = h
Returns-map P Q (some y) h g = g y h

-- The pages of the n bytes at `off` are there.
abbrev pub There : ℕ → ℕ → Region → Type 0
There off n y = (i : ℕ) → off ≤ i → i < off + n → y.present (i / 4096) ≡ true

pub touch_all-Keeps :
    (k : Kernel) (b n off : ℕ) (x : Region)
    → Succeeds k
    → Ready b x
    → off + n ≤ x.temp_data.page_count * 4096
    → Returns (λ y. Keeps b x y × There off n y) (touch_all k n off x)
unfolding touch_all
touch_all-Keeps k b zero off x s r h = (
  record { ready = r; count = refl; same = λ i. refl; there = λ q t. t },
  λ i l u. absurd (omega (arith, l, u)),
)
touch_all-Keeps k b (suc n) off x s r h =
    Returns-and_then (λ y. Keeps b x y × (y.present (off / 4096) ≡ true))
      (λ z. Keeps b x z × There off (suc n) z) (touch_all k n (off + 1)) (touch k off x)
      (touch-Keeps k b off x s r (omega arith))
      (λ y t.
        Returns-map (λ z. Keeps b y z × There (off + 1) n z)
          (λ z. Keeps b x z × There off (suc n) z) (touch_all k n (off + 1) y)
          (touch_all-Keeps k b n (off + 1) y s t.0.ready (omega (arith, t.0.count, h)))
          (λ z u. (
            Keeps-trans b x y z t.0 u.0,
            λ i l w. ground (arith, u.1 i, u.0.there (off / 4096) t.1, l, w),
          )))
