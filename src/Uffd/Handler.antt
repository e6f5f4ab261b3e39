-- ===== src/Uffd/Handler.antt =====
-- fault_handler_thread of Project_3_new/part1/uffd.c.
use lkp.Msi.Memory.{memset}
use lkp.Msi.Data.{update}
use lkp.Pages.Handler.{is_none_read, is_negative_one, destination}
use lkp.Prelude.Int.{ℤ}
use lkp.Prelude.{some, not, true, ◌/◌, none, if◌then◌else◌, ◌%◌, ◌-◌, Bool, ◌+◌, Option, ℕ}

-- The region: the pages that are there, by number, and the bytes by offset; `fault_cnt` and
-- `page_size` are the statics.
pub record Region : Type 0 where
  pub addr : ℕ
  pub page_size : ℕ
  pub present : ℕ → Bool
  pub mem : ℕ → ℕ
  pub fault_cnt : ℕ

-- What the calls of one round answer: poll, read with the event of its message, and UFFDIO_COPY.
pub record Answer : Type 0 where
  pub nready : ℤ
  pub nread : ℤ
  pub is_pagefault : Bool
  pub copies : Bool

-- 'A' + fault_cnt % 20
unfoldable pub letter : ℕ → ℕ
letter n = b'A' + n % 20

-- memset(page, ...); fault_cnt++; and the copy of the page to the address, rounded down to a page.
unfoldable pub copy_page : ℕ → Region → Region
copy_page address x =
    let dst = destination address x.page_size - x.addr in
    record x {
      present = update x.present (dst / x.page_size) true;
      mem = memset x.mem dst (letter x.fault_cnt) x.page_size;
      fault_cnt = x.fault_cnt + 1;
    }

-- One round of the loop, for a fault at `address`; `none` is an exit.
unfoldable pub fault_round : Answer → ℕ → Region → Option Region
unfolding copy_page
fault_round a address x =
    if is_negative_one a.nready
    then none
    else if is_none_read a.nread
    then none
    else if is_negative_one a.nread
    then none
    else if not a.is_pagefault
    then none
    else if not a.copies
    then none
    else some (copy_page address x)
