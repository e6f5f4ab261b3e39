-- ===== src/Msi/Boot/Handlers.antt =====
-- Which descriptor the page fault threads of Project_3_new/part4/part4.c get.
use lkp.Prelude.{inr, ◌^◌, ◌%◌, refl, ◌*◌, inl, arith, ◌≢◌, true, none, some, ◌⊎◌, ◌≡◌, ℕ}
use lkp.Msi.Boot.{
  register_uffd, serving, here, Process, Boots, then_, first_boot, fail_start, start, fail,
  register, enable, create_uffd, map_failed, map_region, BootStep, statics, receiving,
  start_handler, Calls, Second,
}

abbrev pub second_statics : Second
second_statics = record { stage = receiving; process = statics }

-- The calls succeed: userfaultfd gives `u`, and mmap an address for machine 2.
pub record Succeeds (c : Calls) (u hint len : ℕ) : Type 0 where
  pub userfaultfd : c.userfaultfd ≡ some u
  pub uffdio_api : c.uffdio_api ≡ true
  pub uffdio_register : (a l : ℕ) → c.uffdio_register a l ≡ true
  pub pthread_create : c.pthread_create ≡ true
  pub mmap : (a l : ℕ) → (c.mmap a l ≢ 0) × (c.mmap a l ≢ map_failed)

-- The descriptor of the process is 0 or `u`, and so is that of its thread.
abbrev HasEither : ℕ → Second → Type 0
HasEither u x =
    ((x.process.init_uffd ≡ 0) ⊎ (x.process.init_uffd ≡ u))
    × ((x.process.handler ≡ none) ⊎ (x.process.handler ≡ some 0) ⊎ (x.process.handler ≡ some u))

step-HasEither :
    (c : Calls) (u hint len : ℕ) {x y : Second}
    → c.userfaultfd ≡ some u
    → HasEither u x
    → BootStep c hint len x y
    → HasEither u y
unfolding start_handler
step-HasEither c u hint len e h (map_region s) = ground (arith, h)
step-HasEither c u hint len e h (create_uffd v s f) = ground (arith, h, e, f)
step-HasEither c u hint len e h (enable s a) = ground (arith, h)
step-HasEither c u hint len e h (register s a) = ground (arith, h)
step-HasEither c u hint len e h (fail w) = ground (arith, h)
step-HasEither c u hint len e h (start y s a n w) = ground (arith, h, w)
step-HasEither c u hint len e h (fail_start s a n w) = ground (arith, h)

Boots-HasEither :
    (c : Calls) (u hint len : ℕ) {x y : Second}
    → c.userfaultfd ≡ some u
    → HasEither u x
    → Boots c hint len x y
    → HasEither u y
Boots-HasEither c u hint len e h here = h
Boots-HasEither c u hint len e h (then_ r s) =
    step-HasEither c u hint len e (Boots-HasEither c u hint len e h r) s

step-keeps :
    (c : Calls) (v hint len : ℕ) {x y : Second}
    → x.process.handler ≡ some v
    → BootStep c hint len x y
    → y.process.handler ≡ some v
step-keeps c v hint len e (map_region s) = e
step-keeps c v hint len e (create_uffd u s f) = e
step-keeps c v hint len e (enable s a) = e
step-keeps c v hint len e (register s a) = e
step-keeps c v hint len e (fail w) = e
step-keeps c v hint len e (start y s a n w) = ground (arith, e, n)
step-keeps c v hint len e (fail_start s a n w) = e

Boots-keeps :
    (c : Calls) (v hint len : ℕ) {x y : Second}
    → x.process.handler ≡ some v
    → Boots c hint len x y
    → y.process.handler ≡ some v
Boots-keeps c v hint len e here = e
Boots-keeps c v hint len e (then_ r s) = step-keeps c v hint len (Boots-keeps c v hint len e r) s

-- Machine 2 in full service, whose thread has the descriptor `v`.
abbrev pub ServesWith : Calls → ℕ → ℕ → ℕ → ℕ → Type 0
ServesWith c hint len u v =
    (x : Second) × Boots c hint len second_statics x
    × (x.stage ≡ serving)
    × (x.process.init_uffd ≡ u)
    × (x.process.handler ≡ some v)

serves_early : (c : Calls) (u hint len : ℕ) → Succeeds c u hint len → ServesWith c hint len u 0
unfolding start_handler
serves_early c u hint len s = (
  _,
  then_
      (then_
        (then_
          (then_ (then_ here (map_region refl)) (
            start (record { addr = c.mmap hint len; init_uffd = 0; handler = some 0 })
              (ground arith) (s.mmap hint len).0 refl (ground (arith, s.pthread_create))))
          (create_uffd u refl s.userfaultfd))
        (enable refl s.uffdio_api))
      (register refl (s.uffdio_register (c.mmap hint len) len)),
  refl,
  refl,
  refl,
)

serves_late : (c : Calls) (u hint len : ℕ) → Succeeds c u hint len → ServesWith c hint len u u
unfolding start_handler
serves_late c u hint len s = (
  _,
  then_
      (then_
        (then_ (then_ (then_ here (map_region refl)) (create_uffd u refl s.userfaultfd))
          (enable refl s.uffdio_api))
        (register refl (s.uffdio_register (c.mmap hint len) len)))
      (start (record { addr = c.mmap hint len; init_uffd = u; handler = some u }) (ground arith)
        (s.mmap hint len).0 refl (ground (arith, s.pthread_create))),
  refl,
  refl,
  refl,
)

first_boot-handler :
    (c : Calls) (u hint len n : ℕ)
    → Succeeds c u hint len
    → (p : Process) × (first_boot c n ≡ some p) × (p.init_uffd ≡ u) × (p.handler ≡ some u)
unfolding first_boot register_uffd start_handler
first_boot-handler c u hint len n s =
    let bytes = n * c.page_size % 2 ^ 64 in
    (
      record { addr = c.mmap 0 bytes; init_uffd = u; handler = some u },
      ground (
        arith,
        s.userfaultfd,
        s.uffdio_api,
        s.uffdio_register (c.mmap 0 bytes) bytes,
        s.pthread_create,
        (s.mmap 0 bytes).1,
      ),
      refl,
      refl,
    )

-- Where all calls succeed, and userfaultfd gives `u`, the page fault thread of machine 1 is started
-- with `u`. That of machine 2 may be started with `u` or with 0, before server_socket has set
-- init_uffd: both lead to machine 2 in full service. In every state `x` of every run of machine 2
-- the thread has not started, or has 0 or `u`, and what it has in `x` it has in every later `y`.
pub boot-handlers :
    (c : Calls) (u hint len n : ℕ) (x y : Second)
    → Succeeds c u hint len
    → Boots c hint len second_statics x
    → Boots c hint len x y
    → ((p : Process) × (first_boot c n ≡ some p) × (p.init_uffd ≡ u) × (p.handler ≡ some u))
      × ServesWith c hint len u u
      × ServesWith c hint len u 0
      × ((x.process.handler ≡ none)
          ⊎ ((x.process.handler ≡ some 0) × (y.process.handler ≡ some 0))
          ⊎ ((x.process.handler ≡ some u) × (y.process.handler ≡ some u)))
boot-handlers c u hint len n x y s r r' = (
  first_boot-handler c u hint len n s,
  serves_late c u hint len s,
  serves_early c u hint len s,
  elim (Boots-HasEither c u hint len s.userfaultfd (inl refl, inl refl) r).1 [
    | inl e ↦ inl e
    | inr (inl e) ↦ inr (inl (e, Boots-keeps c 0 hint len e r'))
    | inr (inr e) ↦ inr (inr (e, Boots-keeps c u hint len e r'))
  ],
)
