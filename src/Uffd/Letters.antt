-- ===== src/Uffd/Letters.antt =====
-- What Project_3_new/part1/uffd.c prints, where every call succeeds and pages have 4096 bytes.
use lkp.Msi.Memory.{memset}
use lkp.Msi.Data.{update}
use native.Mathlib.Decide.{dec_lt}
use lkp.Uffd.Main.{overflows, and_then, exits, done, touch, Outcome, Line}
use lkp.Pages.Handler.{is_none_read, destination, is_negative_one}
use lkp.Prelude.{
  inr, ◌++◌, inl, Bool-cases, refl, ◌*◌, ◌∙◌, ◌-◌, zero, ◌∷◌, ltb, if◌then◌else◌, ◌≤◌, true, suc,
  ap, [], ◌+◌, ◌<◌, arith, false, ◌/◌, some, ◌%◌, ◌≡◌, List, ℕ,
}
use lkp.Uffd.Handler.{letter, copy_page, fault_round, Region, Answer}

abbrev pub IsGood : Answer → Type 0
IsGood a =
    (is_negative_one a.nready ≡ false)
    × (is_none_read a.nread ≡ false)
    × (is_negative_one a.nread ≡ false)
    × (a.is_pagefault ≡ true)
    × (a.copies ≡ true)

-- The line for offset `l`: each byte of the q-th page reads as the letter of q.
abbrev pub lettered : ℕ → ℕ → ℕ → Line
lettered pass addr l = record { pass = pass; address = addr + l; char = letter (l / 4096) }

-- The lines of a pass from `l` on, with `n` rounds left.
unfoldable pub letters : ℕ → ℕ → ℕ → ℕ → ℕ → ℕ → List Line
letters addr pass step len zero l = []
letters addr pass step len (suc n) l =
    let rest = letters addr pass step len n (l + step) in
    if ltb l len then lettered pass addr l ∷ rest else []

-- The first `c` pages are there, each with its letter, and no other; there were as many faults.
pub record Filled (a : ℕ) (c : ℕ) (x : Region) : Type 0 where
  pub at_addr : x.addr ≡ a
  pub on_page : a % 4096 ≡ 0
  pub of_size : x.page_size ≡ 4096
  pub counted : x.fault_cnt ≡ c
  pub there : (q : ℕ) → q < c → x.present q ≡ true
  pub absent : (q : ℕ) → c ≤ q → x.present q ≡ false
  pub filled : (i : ℕ) → i / 4096 < c → x.mem i ≡ letter (i / 4096)

fault_round-good :
    (a : Answer) (address : ℕ) (x : Region)
    → IsGood a
    → fault_round a address x ≡ some (copy_page address x)
unfolding fault_round
fault_round-good a address x (h0, h1, h2, h3, h4) = ground (arith, h0, h1, h2, h3, h4)

destination-page :
    (a l c s : ℕ) → s ≡ 4096 → a % 4096 ≡ 0 → l / 4096 ≡ c → destination (a + l) s - a ≡ c * 4096
unfolding destination
destination-page a l c s e h k = rw e (omega (arith, h, k))

-- `x` with its page `c` filled.
abbrev with_page : ℕ → Region → Region
with_page c x = record x {
  present = update x.present (c * 4096 / 4096) true;
  mem = memset x.mem (c * 4096) (letter c) 4096;
  fault_cnt = c + 1;
}

copy_page-with_page :
    (a c l : ℕ) (x : Region)
    → Filled a c x
    → l / 4096 ≡ c
    → copy_page (x.addr + l) x ≡ with_page c x
unfolding copy_page
copy_page-with_page a c l x f e =
    let dst =
      destination-page x.addr l c x.page_size f.of_size (ap (λ n. n % 4096) f.at_addr ∙ f.on_page)
        e in
    λ i. record x {
      present = update x.present (dst i / f.of_size i) true;
      mem = memset x.mem (dst i) (letter (f.counted i)) (f.of_size i);
      fault_cnt = f.counted i + 1;
    }

with_page-Filled : (a c : ℕ) (x : Region) → Filled a c x → Filled a (c + 1) (with_page c x)
with_page-Filled a c x f = record {
  at_addr = f.at_addr;
  on_page = f.on_page;
  of_size = f.of_size;
  counted = refl;
  there = λ q h. ground (arith, f.there q);
  absent = λ q h. ground (arith, f.absent q);
  filled = λ i h. in_page i h (f.filled i);
}
  where
    in_page :
        (i : ℕ)
        → i / 4096 < c + 1
        → (i / 4096 < c → x.mem i ≡ letter (i / 4096))
        → (with_page c x).mem i ≡ letter (i / 4096)
    in_page i h old = elim (dec_lt (i / 4096) c) [
      | yes below ↦ ground (arith, below, old below)
      | no here ↦ let e : c ≡ i / 4096 = omega arith in ground (arith, ap letter e)
    ]

abbrev pub next_count : ℕ → ℕ → ℕ
next_count c l = if ltb (l / 4096) c then c else c + 1

abbrev pub touched : ℕ → ℕ → Region → Region
touched c l x = if ltb (l / 4096) c then x else with_page c x

pub touched-Filled :
    (a c l : ℕ) (x : Region) → Filled a c x → Filled a (next_count c l) (touched c l x)
touched-Filled a c l x f = elim (Bool-cases (ltb (l / 4096) c)) [
  | inl e ↦ rw e f
  | inr e ↦ rw e (with_page-Filled a c x f)
]

pub touch-touched :
    (answers : ℕ → Answer) (a c l : ℕ) (x : Region) (k : Region → Outcome)
    → ((n : ℕ) → IsGood (answers n))
    → Filled a c x
    → l / 4096 ≤ c
    → touch answers l x k ≡ k (touched c l x)
unfolding touch
touch-touched answers a c l x k good f h =
    let at = ap (λ s. x.present (l / s)) f.of_size in
    let filled = fault_round-good (answers x.fault_cnt) (x.addr + l) x (good x.fault_cnt) in
    elim (dec_lt (l / 4096) c) [
      | yes below ↦ ground (arith, below, at, f.there (l / 4096) below)
      | no here ↦
          let e : l / 4096 ≡ c = omega arith in
          ground (
            arith,
            at,
            e,
            f.absent (l / 4096) (omega arith),
            filled ∙ ap some (copy_page-with_page a c l x f e),
          )
    ]

-- The outcome is `done`, with such a region and such lines.
abbrev pub DoneWith : (Region → List Line → Type 0) → Outcome → Type 0
DoneWith claim (done x out) = claim x out
DoneWith claim exits = ⊥
DoneWith claim overflows = ⊥

pub and_then-DoneWith :
    (claim : Region → List Line → Type 0) (x : Region) (out : List Line) (o : Outcome)
    → DoneWith (λ y more. claim y (out ++ more)) o
    → DoneWith claim (and_then (done x out) (λ z. o))
and_then-DoneWith claim x out (done y more) h = h
and_then-DoneWith claim x out exits h = h
and_then-DoneWith claim x out overflows h = h
