-- ===== src/Uffd/Main.antt =====
-- main of Project_3_new/part1/uffd.c.
use lkp.Uffd.Handler.{fault_round, Answer, Region}
use lkp.Prelude.{
  zero, ◌∷◌, suc, ◌==◌, ◌^◌, false, [], ltb, ◌%◌, not, ◌/◌, if◌then◌else◌, ◌*◌, none, some, Bool,
  ◌+◌, ◌++◌, List, Option, ℕ,
}

-- printf("#%d. Read address %p in main(): ") and printf("%c\n")
pub record Line : Type 0 where
  pub pass : ℕ
  pub address : ℕ
  pub char : ℕ

-- `exits` is an exit on an error; `overflows` an overflow of the `int l`, or a loop out of rounds.
pub data Outcome : Type 0 where
  done : Region → List Line → Outcome
  exits : Outcome
  overflows : Outcome

abbrev pub and_then : Outcome → (Region → Outcome) → Outcome
and_then (done x out) k = elim (k x) [
  | done y more ↦ done y (out ++ more)
  | exits ↦ exits
  | overflows ↦ overflows
]
and_then exits k = exits
and_then overflows k = overflows

abbrev faulted : Option Region → (Region → Outcome) → Outcome
faulted none k = exits
faulted (some x) k = k x

-- char c = addr[l], for an address below the end of the region; `answers` has the answers of the
-- handler's rounds by fault_cnt.
unfoldable pub touch : (ℕ → Answer) → ℕ → Region → (Region → Outcome) → Outcome
touch answers l x k =
    if x.present (l / x.page_size)
    then k x
    else faulted (fault_round (answers x.fault_cnt) (x.addr + l) x) k

abbrev pub line : ℕ → ℕ → Region → Line
line pass l x = record { pass = pass; address = x.addr + l; char = x.mem l }

-- while (l < len) { ...; l += step; }, with `n` rounds left
unfoldable pub read_pass : (ℕ → Answer) → ℕ → ℕ → ℕ → ℕ → ℕ → Region → Outcome
unfolding touch
read_pass answers pass step len zero l x = if ltb l len then overflows else done x []
read_pass answers pass step len (suc n) l x =
    let rest = read_pass answers pass step len n (l + step) in
    let body = touch answers l x (λ y.
      and_then (done y (line pass l y ∷ []))
        (λ z. if ltb (l + step) (2 ^ 31) then rest z else overflows)) in
    if ltb l len then body else done x []

-- The system calls of main before the loops, and `page`, the handler's mmap of its page; the count is
-- that of strtoul.
pub record Calls : Type 0 where
  pub page_size : ℕ
  pub userfaultfd : Bool
  pub uffdio_api : Bool
  pub mmap : ℕ → Option ℕ
  pub uffdio_register : ℕ → ℕ → Bool
  pub pthread_create : Bool
  pub page : Bool

-- The three loops. The rounds are enough: each takes a step.
unfoldable pub read_passes : (ℕ → Answer) → ℕ → Region → Outcome
unfolding read_pass
read_passes answers len x = and_then (read_pass answers 1 2048 len (len / 2048 + 1) 0 x) (λ y.
    and_then (read_pass answers 2 2048 len (len / 2048 + 1) 0 y)
      (λ z. read_pass answers 3 1024 len (len / 1024 + 1) 0 z))

abbrev mapped : Calls → ℕ → Option ℕ → (Region → Outcome) → Outcome
mapped c len none k = exits
mapped c len (some a) k =
    if not (c.uffdio_register a len)
    then exits
    else if not c.pthread_create
    then exits
    else if not c.page
    then exits
    else k (record {
      addr = a;
      page_size = c.page_size;
      present = λ q. false;
      mem = λ i. 0;
      fault_cnt = 0;
    })

unfoldable pub main : Calls → (ℕ → Answer) → ℕ → ℕ → Outcome
unfolding read_passes
main c answers argc count =
    let len = count * c.page_size % 2 ^ 64 in
    if not (argc == 2)
    then exits
    else if not c.userfaultfd
    then exits
    else if not c.uffdio_api
    then exits
    else mapped c len (c.mmap len) (read_passes answers len)
