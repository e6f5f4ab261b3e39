-- ===== src/Bus/Examples.antt =====
-- The two programs of Project_3/part4/part4.c with a region of two pages of eight bytes.
use lkp.Bus.Start.{no_bus}
use lkp.Bus.Threads
use lkp.Bus.Threads.{hears}
use lkp.Bus.Threads.Both.{main-BothStart, BothStart}
use lkp.Pages.Threads.{message, silent}
use lkp.Pages.ThreadExamples.{sockets, timely, sockets-Connects}
use lkp.Bus.Access.{flags_from}
use lkp.Pages.Start.{Calls}
use lkp.Msi.Data.{unset, invalid}
use lkp.Bus.Handler.Peers.{run-NeedsStdin, NeedsStdin}
use lkp.Pages.Start.Regions.{Succeeds}
use lkp.Bus.All.{Ends}
use lkp.Prelude.{none, if◌then◌else◌, ◌==◌, [], true, some, ◌∷◌, refl, ◌≡◌, arith, ℕ, List}
use lkp.Bus.Single.{IsReady, expected, AreSingle, expected_all}
use lkp.Bus.First
use lkp.Bus.Second
use lkp.Bus.Data.{Command, run, r, w, v, char, flags, refused, Globals}

-- `k` is the number of the machine, `n` its data.length.
abbrev two_pages : ℕ → ℕ → Globals
two_pages k n = record {
  order = k;
  pg_size = 2;
  length = 16;
  page_size = 8;
  data_length = n;
  mem = λ i. 0;
  states_list = λ p. invalid;
  before = unset;
  bus_signal = no_bus;
  recv_signal = no_bus;
}

two_pages-IsReady : (k n : ℕ) → IsReady (two_pages k n)
two_pages-IsReady k n = record {
  has_flags = omega arith;
  has_pages = refl;
  has_bytes = omega arith;
  is_small = omega arith;
  is_invalid = λ p h. refl;
}

-- A text is written to page 1, which is then read; page 2 does not exist.
abbrev session : List Command
session = w 1 (b'h' ∷ b'i' ∷ []) ∷ r 1 ∷ r 2 ∷ v ∷ []

session-AreSingle : AreSingle session
session-AreSingle = ground arith

expected_test :
    expected_all session (two_pages 1 16)
    ≡ char 0 ∷ refused ∷ flags 0 invalid ∷ flags 1 invalid ∷ []
unfolding expected_all expected flags_from
expected_test = refl

run-NeedsStdin_example : Ends NeedsStdin (run First.menu session (two_pages 1 16))
run-NeedsStdin_example =
    run-NeedsStdin session (two_pages 1 16) (two_pages-IsReady 1 16) refl session-AreSingle

-- Every call succeeds, and mmap gives `base` for any length but 0.
abbrev calls : ℕ → Calls
calls base = record {
  page_size = 8;
  mmap = λ hint len. if len == 0 then none else some base;
  userfaultfd = some 5;
  uffdio_api = true;
  uffdio_register = λ start len. true;
}

calls-Succeeds : (hint base : ℕ) → Succeeds (calls base) hint 24 base
calls-Succeeds hint base = record {
  fd = 5;
  has_fd = refl;
  has_api = refl;
  registers = refl;
  maps = refl;
}

main-BothStart_example :
    BothStart true 3 24 unset (Threads.main 5 (sockets 2) (calls 4096) unset timely silent) (
      Threads.main 5 (sockets 0) (calls 8192) unset timely (
        hears
          (message 5 (sockets 2) (calls 4096) timely)
          (Threads.main 5 (sockets 2) (calls 4096) unset timely silent)))
main-BothStart_example =
    main-BothStart 5 5 (sockets 2) (sockets 0) (calls 4096) (calls 8192) unset timely timely 1 6 6
      4096 8192 4096 8192 silent (omega arith) refl (omega arith) (omega arith)
      (calls-Succeeds 0 4096) (calls-Succeeds 4096 8192) refl refl refl
      (sockets-Connects 2 (omega arith)) (sockets-Connects 0 (omega arith))
