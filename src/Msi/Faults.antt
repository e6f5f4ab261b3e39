-- ===== src/Msi/Faults.antt =====
-- fault_handler_thread of Project_3_new/part4/part4.c, and the accesses of the program to a region whose
-- pages it fills at the first access.
pub mod Mask
pub mod Demand
pub mod Accesses
use lkp.Msi.Memory.{memcpy, memset}
use lkp.Pages.Handler.{is_negative_one, is_none_read}
use lkp.Msi.Data.{max_size, ProcInfo, update}
use lkp.Prelude.Int.{negsuc, ℤ, pos}
use lkp.Prelude.{
  ◌&&◌, leb, ◌%◌, not, ◌==◌, ◌-◌, zero, ◌*◌, none, true, ltb, ◌/◌, ◌∷◌, ◌^◌, [], length, some, ◌+◌,
  if◌then◌else◌, Bool, List, suc, ℕ, Option,
}

-- What the system answers in the n-th round, and what a fault at an address is reported as.
pub record Kernel : Type 0 where
  pub nready : ℕ → ℤ
  pub nread : ℕ → ℤ
  pub is_pagefault : ℕ → Bool
  pub address : ℕ → ℕ
  pub copies : ℕ → Bool  -- UFFDIO_COPY, by uffdio_copy.dst

-- The pages that are there, by number, the bytes by offset, and `page`, the buffer of the handler.
pub record Region : Type 0 where
  pub addr : ℕ
  pub page_size : ℕ
  pub present : ℕ → Bool
  pub mem : ℕ → ℕ
  pub page : ℕ → ℕ
  pub temp_data : ProcInfo
  pub rounds : ℕ

-- if (temp_data.pagefault_signal[temp_data.page_num] == 1) memset(page, '\0', page_size);
unfoldable pub clear_buffer : Region → Option Region
clear_buffer x = elim t.page_num [
  | pos p ↦
      if ltb p max_size
      then some (
          if t.pagefault_signal p == 1
          then record x { page = memset x.page 0 0 x.page_size }
          else x)
      else none
  | negsuc n ↦ none
]
  where
    open x use {temp_data as t}

-- a & ~m, of w bits
unfoldable pub mask_out : ℕ → ℕ → ℕ → ℕ
mask_out zero a m = 0
mask_out (suc w) a m = mask_out w (a / 2) (m / 2) * 2 + (if m % 2 == 0 then a % 2 else 0)

-- uffdio_copy.dst, where `n` is the page count
abbrev pub destination : ℕ → ℕ → ℕ
destination address n = mask_out 64 address ((n + (2 ^ 64 - 1)) % 2 ^ 64)

-- The ioctl UFFDIO_COPY.
unfoldable pub copy_page : ℕ → Region → Region
copy_page off x = record x {
  present = update x.present (off / x.page_size) true;
  mem = λ i. if leb off i && ltb i (off + x.page_size) then x.page (i - off) else x.mem i;
  rounds = x.rounds + 1;
}

-- A round from `read` on.
unfoldable pub copy_round : Kernel → ℕ → Option Region → Option Region
unfolding copy_page
copy_round k fault none = none
copy_round k fault (some x) =
    let dst = destination (k.address fault) x.temp_data.page_count in
    if is_none_read (k.nread x.rounds)
    then none
    else if is_negative_one (k.nread x.rounds)
    then none
    else if not (k.is_pagefault x.rounds)
    then none
    else if not (k.copies dst)
    then none
    else some (copy_page (dst - x.addr) x)

-- One round of the loop, for a fault at an address; `none` is an exit, or an index outside of the array.
unfoldable pub fault_round : Kernel → ℕ → Region → Option Region
unfolding clear_buffer copy_round
fault_round k fault x =
    if is_negative_one (k.nready x.rounds) then none else copy_round k fault (clear_buffer x)

-- An access to the byte at an offset waits for the handler where the page is not there.
unfoldable pub touch : Kernel → ℕ → Region → Option Region
touch k off x = if x.present (off / x.page_size) then some x else fault_round k (x.addr + off) x

abbrev pub and_then : Option Region → (Region → Option Region) → Option Region
and_then none f = none
and_then (some x) f = f x

-- Accesses to n bytes.
unfoldable pub touch_all : Kernel → ℕ → ℕ → Region → Option Region
unfolding touch
touch_all k zero off x = some x
touch_all k (suc n) off x = and_then (touch k off x) (touch_all k n (off + 1))

-- memcpy(addr+temp_data.access_page, message, strlen(message))
unfoldable pub store : Kernel → ℕ → List ℕ → Region → Option Region
unfolding touch_all
store k off bs x =
    and_then (touch_all k (length bs) off x) (λ y. some (record y { mem = memcpy y.mem off bs }))

-- memset(addr + temp_data.access_page, '\0', page_size)
unfoldable pub clear : Kernel → ℕ → Region → Option Region
unfolding touch_all
clear k off x =
    and_then (touch_all k x.page_size off x)
      (λ y. some (record y { mem = memset y.mem off 0 y.page_size }))

abbrev pub put_front : ℕ → Option (Region × List ℕ) → Option (Region × List ℕ)
put_front c none = none
put_front c (some (x, s)) = some (x, c ∷ s)

-- printf("... %s\n", &addr[temp_data.access_page]), of at most `n` bytes
unfoldable pub load : Kernel → ℕ → ℕ → Region → Option (Region × List ℕ)
unfolding touch
load k zero off x = some (x, [])
load k (suc n) off x =
    let rest = λ (y : Region). put_front (y.mem off) (load k n (off + 1) y) in
    elim (touch k off x) [ none ↦ none | some y ↦ if y.mem off == 0 then some (y, []) else rest y ]
