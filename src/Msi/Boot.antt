-- ===== src/Msi/Boot.antt =====
-- How a process of Project_3_new/part4/part4.c maps its region and starts its page fault thread: machine 1 in
-- one thread, machine 2 in its two threads as a step relation.
pub mod Handlers
use lkp.Prelude.{
  ◌≢◌, false, ◌==◌, ◌⊎◌, ◌%◌, true, ◌-◌, not, if◌then◌else◌, ◌*◌, ◌≡◌, ◌^◌, some, Bool, ℕ, none,
  Option,
}

-- What the calls answer: `none` is -1, and mmap's MAP_FAILED is a number.
pub record Calls : Type 0 where
  pub page_size : ℕ
  pub mmap : ℕ → ℕ → ℕ
  pub userfaultfd : Option ℕ
  pub uffdio_api : Bool
  pub uffdio_register : ℕ → ℕ → Bool
  pub pthread_create : Bool

abbrev pub map_failed : ℕ
map_failed = 2 ^ 64 - 1

-- The globals, and the descriptor that the page fault thread was given.
pub record Process : Type 0 where
  pub addr : ℕ
  pub init_uffd : ℕ
  pub handler : Option ℕ

abbrev pub statics : Process
statics = record { addr = 0; init_uffd = 0; handler = none }

-- pthread_create(&pf_thread, NULL, fault_handler_thread, (void *) init_uffd)
unfoldable pub start_handler : Calls → Process → Option Process
start_handler c x =
    if c.pthread_create then some (record x { handler = some x.init_uffd }) else none

-- From the call of userfaultfd on, for a region of `len` bytes.
unfoldable pub register_uffd : Calls → ℕ → Process → Option Process
register_uffd c len x = elim c.userfaultfd [
  | none ↦ none
  | some u ↦
      if not c.uffdio_api
      then none
      else if not (c.uffdio_register x.addr len)
      then none
      else some (record x { init_uffd = u })
]

abbrev pub and_then : Option Process → (Process → Option Process) → Option Process
and_then none f = none
and_then (some x) f = f x

-- client_socket of machine 1 from mmap on, without the flags and the message; `none` is an exit.
unfoldable pub first_boot : Calls → ℕ → Option Process
unfolding register_uffd start_handler
first_boot c page_count =
    let len = page_count * c.page_size % 2 ^ 64 in
    let a = c.mmap 0 len in
    if a == map_failed
    then none
    else and_then (register_uffd c len (record statics { addr = a })) (start_handler c)

-- How far server_socket of machine 2 is.
pub data Stage : Type 0 where
  receiving mapped created enabled serving exited : Stage

pub record Second : Type 0 where
  pub stage : Stage
  pub process : Process

-- Both threads of machine 2, where the message asked for `len` bytes at `hint`. server_socket does not
-- look at what mmap answers; client_socket waits until `addr` is not NULL.
pub data BootStep (c : Calls) (hint len : ℕ) : Second → Second → Type 0 where
  map_region :
      {x : Second}
      → x.stage ≡ receiving
      → BootStep c hint len x
          (record x { stage = mapped; process = record (x.process) { addr = c.mmap hint len } })
  create_uffd :
      {x : Second} (u : ℕ)
      → x.stage ≡ mapped
      → c.userfaultfd ≡ some u
      → BootStep c hint len x
          (record x { stage = created; process = record (x.process) { init_uffd = u } })
  enable :
      {x : Second}
      → x.stage ≡ created
      → c.uffdio_api ≡ true
      → BootStep c hint len x (record x { stage = enabled })
  register :
      {x : Second}
      → x.stage ≡ enabled
      → c.uffdio_register x.process.addr len ≡ true
      → BootStep c hint len x (record x { stage = serving })
  fail :
      {x : Second}
      → ((x.stage ≡ mapped) × (c.userfaultfd ≡ none))
        ⊎ ((x.stage ≡ created) × (c.uffdio_api ≡ false))
        ⊎ ((x.stage ≡ enabled) × (c.uffdio_register x.process.addr len ≡ false))
      → BootStep c hint len x (record x { stage = exited })
  start :
      {x : Second} (y : Process)
      → x.stage ≢ exited
      → x.process.addr ≢ 0
      → x.process.handler ≡ none
      → start_handler c x.process ≡ some y
      → BootStep c hint len x (record x { process = y })
  fail_start :
      {x : Second}
      → x.stage ≢ exited
      → x.process.addr ≢ 0
      → x.process.handler ≡ none
      → start_handler c x.process ≡ none
      → BootStep c hint len x (record x { stage = exited })

pub data Boots (c : Calls) (hint len : ℕ) (x : Second) : Second → Type 0 where
  here : Boots c hint len x x
  then_ : {y z : Second} → Boots c hint len x y → BootStep c hint len y z → Boots c hint len x z
