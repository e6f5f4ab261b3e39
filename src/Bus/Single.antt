-- ===== src/Bus/Single.antt =====
-- Sessions of commands for single pages in Project_3/part4/part4.c, on either machine.
use mathlib.Core.Path.{ap₂}
use lkp.Msi.Coherence.Rounds.{page-fits}
use lkp.Msi.Data.{invalid}
use lkp.Pages.Ready.{to_int-small, small}
use lkp.Pages.Data.{all_pages}
use lkp.Bus.Access.{raise_rdx, flags_from, raise_rd, byte_at, set_cur_var, offset_of, flags_at}
use lkp.Prelude.{
  ◌∙◌, none, ap, refl, arith, ◌+◌, ltb, ◌^◌, some, ◌*◌, ◌++◌, [], if◌then◌else◌, ◌<◌, ◌≡◌, ◌≢◌, ◌∷◌,
  ◌≤◌, ℕ, List,
}
use lkp.Bus.First
use lkp.Bus.Second
use lkp.Bus.Data.{
  Turn, Menu, run, states_size, Line, Command, BusInfo, r, w, v, char, refused, Globals,
}

-- The region is shorter than 2 ^ 31 bytes, the flags have room for its pages, and every page is invalid.
pub record IsReady (x : Globals) : Type 0 where
  pub has_flags : x.pg_size ≤ states_size
  pub has_pages : x.length ≡ x.pg_size * x.page_size
  pub has_bytes : 0 < x.page_size
  pub is_small : x.length < 2 ^ 31
  pub is_invalid : (p : ℕ) → p < x.pg_size → x.states_list p ≡ invalid

-- The command does not ask for all pages.
abbrev pub IsSingle : Command → Type 0
IsSingle (r access) = access ≢ all_pages
IsSingle (w access message) = access ≢ all_pages
IsSingle v = Unit {0}

abbrev pub AreSingle : List Command → Type 0
AreSingle [] = Unit {0}
AreSingle (c ∷ cs) = IsSingle c × AreSingle cs

-- What a command prints: the first byte of the page; nothing for a text; the flags of all pages.
unfoldable pub expected : Command → Globals → List Line
expected (r access) x =
    if ltb access x.pg_size then char (x.mem (access * x.page_size)) ∷ [] else refused ∷ []
expected (w access message) x = if ltb access x.pg_size then [] else refused ∷ []
expected v x = flags_from x.pg_size 0 x.states_list

unfoldable pub expected_all : List Command → Globals → List Line
expected_all [] x = []
expected_all (c ∷ cs) x = expected c x ++ expected_all cs x

-- What a command leaves: only the signals change.
signals : Command → Globals → BusInfo
signals (r access) x =
    let y = set_cur_var access x in
    if ltb access x.pg_size then (raise_rd y).bus_signal else y.bus_signal
signals (w access message) x =
    if ltb access x.pg_size then (raise_rdx x).bus_signal else x.bus_signal
signals v x = x.bus_signal

abbrev with_signals : Globals → BusInfo → Globals
with_signals x b = record x { bus_signal = b }

with_signals-IsReady : (x : Globals) (b : BusInfo) → IsReady x → IsReady (with_signals x b)
with_signals-IsReady x b z = record {
  has_flags = z.has_flags;
  has_pages = z.has_pages;
  has_bytes = z.has_bytes;
  is_small = z.is_small;
  is_invalid = z.is_invalid;
}

module _ {x : Globals} (z : IsReady x) where
  page_end : (p : ℕ) → p < x.pg_size → p * x.page_size + x.page_size ≤ x.length
  page_end p h = omega (arith, page-fits p x.pg_size x.page_size h, z.has_pages)

  pub byte_at-page :
      (p : ℕ) → p < x.pg_size → byte_at (offset_of p x) x ≡ some (x.mem (p * x.page_size))
  unfolding offset_of byte_at
  byte_at-page p h =
      rw
        (
          small (p * x.page_size) (omega (arith, page_end p h, z.is_small, z.has_bytes)),
          to_int-small (p * x.page_size) (omega (arith, page_end p h, z.is_small, z.has_bytes)),
        )
        (ground (arith, page_end p h, z.has_bytes))

  flags_at-page : (p : ℕ) → p < x.pg_size → flags_at p x ≡ some invalid
  unfolding flags_at
  flags_at-page p h = ground (arith, z.has_flags, z.is_invalid p h)

module _ {x : Globals} (z : IsReady x) where
  byte_at-signals :
      (b : BusInfo) (p : ℕ)
      → p < x.pg_size
      → byte_at (offset_of p (with_signals x b)) (with_signals x b) ≡ some (x.mem (p * x.page_size))
  byte_at-signals b p h = byte_at-page (with_signals-IsReady x b z) p h

  first_lem :
      (c : Command)
      → IsSingle c
      → First.menu c x ≡ some (with_signals x (signals c x), expected c x)
  unfolding First.menu signals expected
  first_lem (r access) s =
      ground
        (arith, s, flags_at-page z access, byte_at-signals (set_cur_var access x).bus_signal access)
  first_lem (w access message) s = ground (arith, s, flags_at-page z access)
  first_lem v s = ground (arith, z.has_flags)

  second_lem :
      (c : Command)
      → IsSingle c
      → Second.menu c x ≡ some (with_signals x (signals c x), expected c x)
  unfolding Second.menu signals expected
  second_lem (r access) s =
      ground
        (arith, s, flags_at-page z access, byte_at-signals (set_cur_var access x).bus_signal access)
  second_lem (w access message) s = ground (arith, s, flags_at-page z access)
  second_lem v s = ground (arith, z.has_flags)

-- The signals do not change what is printed.
expected-signals :
    (c : Command) (x : Globals) (b : BusInfo) → expected c (with_signals x b) ≡ expected c x
unfolding expected
expected-signals (r access) x b = refl
expected-signals (w access message) x b = refl
expected-signals v x b = refl

expected_all-signals :
    (cs : List Command) (x : Globals) (b : BusInfo)
    → expected_all cs (with_signals x b) ≡ expected_all cs x
unfolding expected_all
expected_all-signals [] x b = refl
expected_all-signals (c ∷ cs) x b = ap₂ ◌++◌ (expected-signals c x b) (expected_all-signals cs x b)

signals-uffd : (c : Command) (x : Globals) → (signals c x).uffd ≡ x.bus_signal.uffd
unfolding signals
signals-uffd (r access) x = ground arith
signals-uffd (w access message) x = ground arith
signals-uffd v x = refl

-- The run of a menu that does each command as above.
run_single :
    (menu : Menu)
    → ((c : Command) (x : Globals)
        → IsReady x
        → IsSingle c
        → menu c x ≡ some (with_signals x (signals c x), expected c x))
    → (cs : List Command) (x : Globals) → IsReady x
    → AreSingle cs
    → (b : BusInfo) × (b.uffd ≡ x.bus_signal.uffd)
      × (run menu cs x ≡ some (with_signals x b, expected_all cs x))
unfolding run expected_all
run_single menu step [] x z s = (x.bus_signal, refl, refl)
run_single menu step (c ∷ cs) x z s =
    let b = signals c x in
    let (b', u, e) = run_single menu step cs (with_signals x b) (with_signals-IsReady x b z) s.1 in
    (
      b',
      u ∙ signals-uffd c x,
      rw (step c x z s.0, e)
          (ap (λ out. some (with_signals x b', expected c x ++ out)) (expected_all-signals cs x b)),
    )

-- A session ends with the region, the flags and bus_signal.uffd as they were, and has printed `lines`.
abbrev pub Leaves : Globals → List Line → Turn → Type 0
Leaves x lines none = ⊥
Leaves x lines (some (y, out)) =
    (y.mem ≡ x.mem)
    × (y.states_list ≡ x.states_list)
    × (y.bus_signal.uffd ≡ x.bus_signal.uffd)
    × (out ≡ lines)

-- Where the region is ready and every page is invalid, a session of commands for single pages ends
-- without a fault on either machine. It leaves the region, all flags and bus_signal.uffd as
-- they were: every text is lost, no page is ever shared or modified, and each read prints the
-- first byte of its page.
pub run-Leaves :
    (cs : List Command) (x : Globals)
    → IsReady x
    → AreSingle cs
    → Leaves x (expected_all cs x) (run First.menu cs x)
      × Leaves x (expected_all cs x) (run Second.menu cs x)
run-Leaves cs x z s =
    (ended First.menu (λ c y k. first_lem k c), ended Second.menu (λ c y k. second_lem k c))
  where
    ended :
        (menu : Menu)
        → ((c : Command) (y : Globals)
            → IsReady y
            → IsSingle c
            → menu c y ≡ some (with_signals y (signals c y), expected c y))
        → Leaves x (expected_all cs x) (run menu cs x)
    ended menu step = let (b, u, e) = run_single menu step cs x z s in rw e (refl, refl, u, refl)
