-- ===== src/Pages/Handler.antt =====
-- fault_handler_thread of Project_3/part3/part3.c: one round of its loop. The page size is a power of
-- two, so `& ~(page_size - 1)` takes the rest by page_size away.
use lkp.Msi.Memory.{memset}
use lkp.Prelude.{
  ◌∙◌, arith, ap, true, ◌≤◌, not, ◌⊎◌, ◌+◌, false, ◌==◌, ◌%◌, none, ◌*◌, Bool, ◌-◌, ◌<◌, ◌≡◌,
  if◌then◌else◌, some, Option, ℕ,
}
use lkp.Prelude.Int.{negsuc, pos, ℤ}
use native.Mathlib.Nat.{mod-le, mod-lt, mul-add-mod_self_right}
use lkp.Pages.Data.{Process}

-- What poll and read answer, the message, and whether the ioctl UFFDIO_COPY succeeds at an address.
pub record Event : Type 0 where
  pub nready : ℤ
  pub nread : ℤ
  pub is_pagefault : Bool
  pub address : ℕ
  pub copies : ℕ → Bool

abbrev pub is_negative_one : ℤ → Bool
is_negative_one (pos n) = false
is_negative_one (negsuc n) = n == 0

abbrev pub is_none_read : ℤ → Bool
is_none_read (pos n) = n == 0
is_none_read (negsuc n) = false

unfoldable pub destination : ℕ → ℕ → ℕ
destination address page_size = address - address % page_size

-- `none` is an exit. The page that is copied is never written, so it holds zeros.
unfoldable pub handle_fault : Event → Process → Option Process
handle_fault e x =
    let dst = destination e.address x.page_size in
    if is_negative_one e.nready
    then none
    else if is_none_read e.nread
    then none
    else if is_negative_one e.nread
    then none
    else if not e.is_pagefault
    then none
    else if not (e.copies dst)
    then none
    else some (record x { mem = memset x.mem (dst - x.base) 0 x.page_size })

-- The memory of `y` is that of `x`, with zeros in the page of the offset `off`.
abbrev pub Filled : ℕ → Process → Option Process → Type 0
Filled off x none = ⊥
Filled off x (some y) =
    (y.mem off ≡ 0)
    × ((i : ℕ)
        → (i < off - off % x.page_size) ⊎ (off - off % x.page_size + x.page_size ≤ i)
        → y.mem i ≡ x.mem i)

destination-offset :
    (e : Event) (x : Process) (q off : ℕ)
    → x.base ≡ q * x.page_size
    → e.address ≡ x.base + off
    → destination e.address x.page_size - x.base ≡ off - off % x.page_size
unfolding destination
destination-offset e x q off b a =
    let same = ap (λ u. (u + off) % x.page_size) b ∙ mul-add-mod_self_right q x.page_size off in
    ap (λ t. t - t % x.page_size - x.base) a ∙ omega (arith, same, mod-le off x.page_size)

-- A page fault in a region whose base is a multiple of the page size, where poll, read and the copy
-- succeed, is handled: the page of the address holds zeros then, and no other byte changes.
pub handle_fault-fills :
    (e : Event) (x : Process) (q off : ℕ)
    → 0 < x.page_size
    → x.base ≡ q * x.page_size
    → e.address ≡ x.base + off
    → is_negative_one e.nready ≡ false
    → is_none_read e.nread ≡ false
    → is_negative_one e.nread ≡ false
    → e.is_pagefault ≡ true
    → e.copies (destination e.address x.page_size) ≡ true
    → Filled off x (handle_fault e x)
unfolding handle_fault
handle_fault-fills e x q off h a b n1 n2 n3 n4 n5 =
    rw (n1, n2, n3, n4, n5, destination-offset e x q off a b)
      (
        ground (arith, mod-le off x.page_size, mod-lt off h),
        λ i u. ground (arith, mod-le off x.page_size, mod-lt off h),
      )
