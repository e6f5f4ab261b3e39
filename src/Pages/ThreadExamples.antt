-- ===== src/Pages/ThreadExamples.antt =====
-- Two programs of Project_3/part3/part3.c with three pages of eight bytes.
use lkp.Pages.Start
use lkp.Pages.Start.Regions.{Succeeds}
use lkp.Pages.Threads
use lkp.Pages.Threads.{Input, main, message, hears, silent}
use lkp.Pages.Threads.Connected.{Connects}
use lkp.Pages.Threads.Both.{main-BothEnd, BothEnd}
use lkp.Prelude.{◌≤◌, ℕ, none, some, true, false, refl, arith, ◌==◌, leb, if◌then◌else◌}

-- Calls that succeed; mmap answers `moved` of its hint, for any length but 0.
abbrev calls : (ℕ → ℕ) → Start.Calls
calls moved = record {
  page_size = 8;
  mmap = λ hint len. if len == 0 then none else some (moved hint);
  userfaultfd = some 5;
  uffdio_api = true;
  uffdio_register = λ start len. true;
}

calls-Succeeds : (moved : ℕ → ℕ) (hint : ℕ) → Succeeds (calls moved) hint 24 (moved hint)
calls-Succeeds moved hint = record {
  fd = 5;
  has_fd = refl;
  has_api = refl;
  registers = refl;
  maps = refl;
}

-- Sockets that connect at the given attempt, though bind fails.
abbrev pub sockets : ℕ → Threads.Calls
sockets n = record {
  sockets = record {
    server_fd = some 3;
    client_fd = some 4;
    setsockopt = λ fd. true;
    bind = λ fd port. false;
    listen = λ fd. true;
    inet_aton = true;
    connect = λ fd port j. leb n j;
    pthread_create = λ n. true;
  };
  accept = λ fd. some (some 6);
}

-- Three pages; server_socket looks at `order` when it is set.
abbrev pub timely : Input
timely = record { serv_num = 91; cli_num = 92; count = 3; is_set = true }

pub sockets-Connects : (n : ℕ) → n ≤ 5 → Connects 5 (sockets n) timely n 6
sockets-Connects n h = record {
  creates = λ n. refl;
  server_fd = 3;
  has_server = refl;
  some_server = omega arith;
  sets = refl;
  accepts = refl;
  some_fd = omega arith;
  client_fd = 4;
  has_client = refl;
  some_client = omega arith;
  has_address = refl;
  enough = h;
  connects = ground arith;
  fails = λ j k. ground arith;
}

main-BothEnd_example :
    BothEnd true 3 4096 8192 (main 5 (sockets 2) (calls (λ h. 4096)) timely silent) (
      main 5 (sockets 0) (calls (λ h. 8192)) timely (
        hears
          (message 5 (sockets 2) (calls (λ h. 4096)) timely)
          (main 5 (sockets 2) (calls (λ h. 4096)) timely silent)))
main-BothEnd_example =
    main-BothEnd 5 5 (sockets 2) (sockets 0) (calls (λ h. 4096)) (calls (λ h. 8192)) timely timely 1
      6 6 4096 8192 4096 8192 silent (omega arith) refl (omega arith) (calls-Succeeds (λ h. 4096) 0)
      (calls-Succeeds (λ h. 8192) 4096) refl refl refl refl (sockets-Connects 2 (omega arith))
      (sockets-Connects 0 (omega arith))
