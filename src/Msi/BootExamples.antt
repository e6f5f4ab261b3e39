-- ===== src/Msi/BootExamples.antt =====
-- A region of two pages of Project_3_new/part4/part4.c, of which the second is there, its process, and
-- a run of two processes that are started.
use lkp.Msi.Roles.Outcomes.{final-outcomes, Starves, Follows, Leads}
use lkp.Prelude.Int.{pos}
use lkp.Msi.Memory.{memset, memcpy, string_at}
use lkp.Prelude.{
  leb, ◌+◌, List, ℕ, Option, ◌≤◌, false, [], ◌%◌, ◌⊎◌, ◌-◌, ◌∷◌, true, ◌==◌, none, refl, some, ◌≡◌,
  arith, ◌*◌,
}
use lkp.Msi.Faults
use lkp.Msi.Boot
use lkp.Msi.Setup
use lkp.Msi.Setup.Attempts
use lkp.Msi.Setup.Attempts.{setup-Ends}
use lkp.Msi.Roles
use lkp.Msi.Roles.{serving, waiting, in_menu}
use lkp.Msi.Roles.Final.{final-roles}
use lkp.Msi.Roles.Idle.{both_second, receiver, rests-IsFinal}
use lkp.Msi.Boot.Handlers
use lkp.Msi.Start.{fresh_info}
use lkp.Msi.Faults.Demand
use lkp.Msi.Faults.Demand.{Returns, seen}
use lkp.Msi.Faults.Accesses.{demand-Sees, Loads, Sees}

abbrev kernel : Faults.Kernel
kernel = record {
  nready = λ n. pos 1;
  nread = λ n. pos 32;
  is_pagefault = λ n. true;
  address = λ a. a - a % 4096;
  copies = λ a. a % 4096 == 0;
}

kernel-Succeeds : Demand.Succeeds kernel
kernel-Succeeds = record {
  polls = λ n. refl;
  some_read = λ n. refl;
  reads = λ n. refl;
  pagefault = λ n. refl;
  address = λ q i h. omega (arith, h);
  copies = λ q. ground arith;
}

abbrev region : Faults.Region
region = record {
  addr = 3 * 4096;
  page_size = 4096;
  present = λ q. q == 1;
  mem = λ i. b'x';
  page = λ i. 0;
  temp_data = record (fresh_info 2) { page_num = pos 0 };
  rounds = 0;
}

region-Ready : Demand.Ready 3 region
region-Ready = record {
  page = λ i. refl;
  page_size = refl;
  addr = refl;
  some_pages = omega arith;
  few_pages = omega arith;
  fits = omega arith;
  page_num = (0, refl, omega arith);
}

demand-Sees_example :
    Returns (Loads 3 region (string_at 8 (seen region) 4000)) (Faults.load kernel 8 4000 region)
    × Returns
        (Sees 3 region (memcpy (seen region) 4000 (b'h' ∷ b'i' ∷ [])))
        (Faults.store kernel 4000 (b'h' ∷ b'i' ∷ []) region)
    × Returns (Sees 3 region (memset (seen region) 4000 0 4096)) (Faults.clear kernel 4000 region)
demand-Sees_example =
    demand-Sees kernel 3 4000 8 (b'h' ∷ b'i' ∷ []) region kernel-Succeeds region-Ready (omega arith)
      (omega arith) (omega arith)

abbrev calls : Boot.Calls
calls = record {
  page_size = 4096;
  mmap = λ hint len. 8192;
  userfaultfd = some 5;
  uffdio_api = true;
  uffdio_register = λ a l. true;
  pthread_create = true;
}

calls-Succeeds : Handlers.Succeeds calls 5 8192 4096
calls-Succeeds = record {
  userfaultfd = refl;
  uffdio_api = refl;
  uffdio_register = λ a l. refl;
  pthread_create = refl;
  mmap = λ a l. (ground arith, ground arith);
}

-- Machine 2 when it has mapped its region and its thread has started.
abbrev early : Boot.Second
early = record {
  stage = Boot.mapped;
  process = record { addr = 8192; init_uffd = 0; handler = some 0 };
}

early-Boots : Boot.Boots calls 8192 4096 Handlers.second_statics early
unfolding Boot.start_handler
early-Boots = Boot.then_ (Boot.then_ Boot.here (Boot.map_region refl)) (
    Boot.start (record { addr = 8192; init_uffd = 0; handler = some 0 }) (ground arith)
      (ground arith) refl refl)

boot-handlers_example :
    ((p : Boot.Process) × (Boot.first_boot calls 2 ≡ some p)
      × (p.init_uffd ≡ 5)
      × (p.handler ≡ some 5))
    × Handlers.ServesWith calls 8192 4096 5 5
    × Handlers.ServesWith calls 8192 4096 5 0
    × ((early.process.handler ≡ none)
        ⊎ ((early.process.handler ≡ some 0) × (early.process.handler ≡ some 0))
        ⊎ ((early.process.handler ≡ some 5) × (early.process.handler ≡ some 5)))
boot-handlers_example =
    Handlers.boot-handlers calls 5 8192 4096 2 early early calls-Succeeds early-Boots Boot.here

-- The second process has accepted the connection of the first before it has set its machine number.
abbrev starved : Roles.Process
starved = record {
  mch_num = 2;
  mapped = false;
  info_sent = false;
  server = serving;
  client = waiting;
}

abbrev leader : Roles.Process
leader = record { mch_num = 1; mapped = true; info_sent = true; server = serving; client = in_menu }

starving : Roles.Runs Roles.alone Roles.begun 11 leader starved
starving =
    Roles.then_
      (Roles.then_
        (Roles.then_
          (Roles.then_
            (Roles.then_
              (Roles.then_
                (Roles.then_
                  (Roles.then_
                    (Roles.then_
                      (Roles.then_ (Roles.then_ Roles.here (Roles.second (Roles.listen refl)))
                        (Roles.first (Roles.reconnect refl (λ h. absurd (ground (arith, h))))))
                      (Roles.first (Roles.ask refl refl)))
                    (Roles.first (Roles.send_info refl)))
                  (Roles.second (Roles.accept refl refl)))
                (Roles.second (Roles.serve refl (λ h. absurd (omega (arith, h))))))
              (Roles.second (Roles.connect refl (λ h. absurd (ground (arith, h))))))
            (Roles.second (Roles.set_second refl)))
          (Roles.second (Roles.wait refl (λ h. absurd (omega (arith, h))))))
        (Roles.first (Roles.accept refl refl)))
      (Roles.first (Roles.serve refl (λ h. absurd (omega (arith, h)))))

final-roles_example :
    (11 ≤ 15)
    × (leader.mch_num ≡ 1)
    × (leader.client ≡ in_menu)
    × (starved.mch_num ≡ 2)
    × (leader.server ≡ serving)
    × (starved.server ≡ serving)
    × (((starved.client ≡ in_menu) × (starved.mapped ≡ true))
        ⊎ ((starved.client ≡ waiting) × (starved.mapped ≡ false)))
final-roles_example =
    final-roles 11 leader starved starving (rests-IsFinal leader starved tt tt tt refl)

final-outcomes_example :
    (12 ≤ 18)
    × ((Leads receiver × (Follows receiver ⊎ Starves receiver))
        ⊎ ((Follows receiver ⊎ Starves receiver) × Leads receiver)
        ⊎ (Leads receiver × Leads receiver)
        ⊎ (Starves receiver × Starves receiver))
final-outcomes_example = final-outcomes 12 receiver receiver both_second.0 both_second.1

-- Descriptors 3 and 4, and a peer that listens from the third attempt on.
abbrev late_peer : Setup.Calls
late_peer = record {
  server_fd = some 3;
  client_fd = some 4;
  setsockopt = λ fd. elim fd [ none ↦ false | some d ↦ true ];
  bind = λ fd port. true;
  listen = λ fd. true;
  inet_aton = true;
  connect = λ fd port j. elim fd [ none ↦ false | some d ↦ leb 2 j ];
  pthread_create = λ n. true;
}

-- What atoi reads of a text of digits, behind the number `n`.
abbrev decimal : ℕ → List ℕ → ℕ
decimal n [] = n
decimal n (d ∷ ds) = decimal (n * 10 + (d - 48)) ds

setup-Ends_example :
    (s : Setup.Server) × (o : Option Setup.Client) × (Setup.main 5
        (decimal 0)
        late_peer
        ((b'p' ∷ []) ∷ (b'9' ∷ b'1' ∷ []) ∷ (b'9' ∷ b'2' ∷ []) ∷ [])
      ≡ some (Setup.threads s o))
    × Setup.Attempts.ServerEnds late_peer 91 s
    × Setup.Attempts.ClientEnds 5 late_peer 92 o
setup-Ends_example =
    setup-Ends 5 (decimal 0) late_peer (b'p' ∷ []) (b'9' ∷ b'1' ∷ []) (b'9' ∷ b'2' ∷ []) [] refl
      (λ j. refl) refl refl
