-- ===== src/Msi/Start.antt =====
-- How Project_3_new/part4/part4.c brings the two machines up: `client_socket` of machine 1, whose
-- `scanf` gives the page count, and the first message of `server_socket` on machine 2.
use mathlib.Core.Option
use lkp.Prelude.Int.{pos}
use lkp.Msi.Data.{invalid, update, max_size, unset, Machine, MsiList, ProcInfo}
use lkp.Prelude.{none, zero, some, ◌+◌, ltb, Bool, if◌then◌else◌, suc, Option, ℕ}

-- while (i < temp_data.page_count) { list_MSI[i].M = false; ...; i++; }, with `n` rounds left
-- `none`: it writes past the end of list_MSI.
unfoldable pub clear_from : ℕ → ℕ → (ℕ → MsiList) → Option (ℕ → MsiList)
clear_from zero i l = some l
clear_from (suc n) i l = if ltb i max_size then clear_from n (i + 1) (update l i invalid) else none

-- A static `proc_info`, with the page count that machine 1 keeps in it.
abbrev pub fresh_info : ℕ → ProcInfo
fresh_info n = record {
  addr = 0;
  page_num = pos 0;
  page_count = n;
  read_signal = λ _. 0;
  pagefault_signal = λ _. 0;
  bus_rdx = λ _. 0;
  invalidate_signal = λ _. 0;
  bus_upgr = λ _. 0;
  flush = λ _. 0;
  access_page = 0;
}

-- A process with `n` anonymous pages mapped, which read as zeros; `buffer` is what `malloc` gives. `whole` is
-- what the system does with a read of a message.
abbrev pub booted : ℕ → ℕ → ℕ → (ℕ → ℕ) → Bool → ProcInfo → (ℕ → MsiList) → Machine
booted k n page_size buffer whole info l = record {
  mch_num = k;
  page_size = page_size;
  mapped = n;
  mem = λ _. 0;
  recv_message = buffer;
  temp_data = info;
  list_msi = l;
  reads_whole = whole;
}

unfoldable pub start_first : ℕ → ℕ → (ℕ → ℕ) → Bool → Option Machine
unfolding clear_from
start_first n page_size buffer whole =
    Option.map (booted 1 n page_size buffer whole (fresh_info n)) (clear_from n 0 (λ _. unset))

-- `send_data` is a local variable: only `page_count` and `addr` are assigned before it is sent.
unfoldable pub first_message : ℕ → ℕ → ProcInfo → ProcInfo
first_message n base garbage = record garbage { page_count = n; addr = base }

unfoldable pub start_second : ProcInfo → ℕ → (ℕ → ℕ) → Bool → Option Machine
unfolding clear_from
start_second received page_size buffer whole =
    Option.map (booted 2 received.page_count page_size buffer whole received)
      (clear_from received.page_count 0 (λ _. unset))
