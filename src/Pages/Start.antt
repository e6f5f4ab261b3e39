-- ===== src/Pages/Start.antt =====
-- How the two programs of Project_3/part3/part3.c agree on the region: server_socket of machine 1 asks
-- for the page count, maps the pages and sends its `data`; client_socket of machine 2 receives it
-- and maps as many pages, with the address as a hint. `none` is an exit on an error.
pub mod Regions
use lkp.Prelude.{◌&&◌, if◌then◌else◌, none, ◌^◌, ◌%◌, some, ◌*◌, Bool, Option, ℕ}
use lkp.Pages.Data.{Process, Stuff}

-- The system calls, in the order in which a program makes them.
pub record Calls : Type 0 where
  pub page_size : ℕ  -- sysconf(_SC_PAGE_SIZE)
  pub mmap : ℕ → ℕ → Option ℕ  -- the hint (0 is NULL) and the length
  pub userfaultfd : Option ℕ
  pub uffdio_api : Bool
  pub uffdio_register : ℕ → ℕ → Bool

-- The `data` that machine 1 sends: before the call of userfaultfd, so with the static 0.
unfoldable pub sent : Calls → ℕ → Option Stuff
sent c count = elim (c.mmap 0 (count * c.page_size % 2 ^ 64)) [
  | none ↦ none
  | some a ↦
      some (record { addr = a; pg_size = count; uffd = 0; length = count * c.page_size % 2 ^ 64 })
]

-- userfaultfd, UFFDIO_API and UFFDIO_REGISTER of a region
unfoldable pub registered : Calls → ℕ → Stuff → Option Stuff
registered c start d = elim (c.userfaultfd) [
  | none ↦ none
  | some fd ↦
      if c.uffdio_api && c.uffdio_register start d.length
      then some (record d { uffd = fd })
      else none
]

abbrev process : Calls → ℕ → Option Stuff → Option Process
process c base none = none
process c base (some d) =
    some (record { mch = d; page_size = c.page_size; base = base; mem = λ i. 0 })

-- server_socket with order == 1, and then mch = data
unfoldable pub start_first : Calls → ℕ → Option Process
start_first c count = elim (sent c count) [
  | none ↦ none
  | some d ↦ process c d.addr (registered c d.addr d)
]

-- client_socket with order == 2, and then mch = recv_data: mmap's own result is not kept in it.
unfoldable pub start_second : Calls → Stuff → Option Process
start_second c recv_data =
    let len = recv_data.pg_size * c.page_size % 2 ^ 64 in
    elim (c.userfaultfd) [
      | none ↦ none
      | some fd ↦ elim (c.mmap recv_data.addr len) [
        | none ↦ none
        | some recv_addr ↦
            process c recv_addr (registered c recv_addr (record recv_data { length = len }))
      ]
    ]

-- The machines that are started with one page count.
unfoldable pub start : Calls → Calls → ℕ → Option (Process × Process)
start c d count = elim (sent c count) [
  | none ↦ none
  | some first_data ↦ elim (start_first c count) [
    | none ↦ none
    | some x ↦ elim (start_second d first_data) [ none ↦ none | some y ↦ some (x, y) ]
  ]
]
