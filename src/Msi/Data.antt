-- ===== src/Msi/Data.antt =====
-- The types and globals of Project_3_new/part4/part4.c, and the helpers that assign to them.
use lkp.Prelude.{ℕ, ◌*◌, Bool, true, false, ◌==◌, if◌then◌else◌}
use lkp.Prelude.Int.{ℤ, pos}

abbrev pub max_size : ℕ
max_size = 4096

pub record MsiList : Type 0 where
  pub m : Bool
  pub s : Bool
  pub i : Bool

abbrev pub modified : MsiList
modified = record { m = true; s = false; i = false }

abbrev pub shared : MsiList
shared = record { m = false; s = true; i = false }

abbrev pub invalid : MsiList
invalid = record { m = false; s = false; i = true }

-- What a static array entry holds before it is written.
abbrev pub unset : MsiList
unset = record { m = false; s = false; i = false }

-- An array is a function of the index; the operations check the index where the code uses one.
pub record ProcInfo : Type 0 where
  pub addr : ℕ
  pub page_num : ℤ
  pub page_count : ℕ
  pub read_signal : ℕ → ℕ
  pub pagefault_signal : ℕ → ℕ
  pub bus_rdx : ℕ → ℕ
  pub invalidate_signal : ℕ → ℕ
  pub bus_upgr : ℕ → ℕ
  pub flush : ℕ → ℕ
  pub access_page : ℕ

-- The globals of one process. `mem` is the region at `addr`, by offset; `mapped` counts its pages.
-- `reads_whole` is the system's: whether a read of a `proc_info` waits for the whole struct, which a
-- stream socket need not.
pub record Machine : Type 0 where
  pub mch_num : ℕ
  pub page_size : ℕ
  pub mapped : ℕ
  pub mem : ℕ → ℕ
  pub recv_message : ℕ → ℕ
  pub temp_data : ProcInfo
  pub list_msi : ℕ → MsiList
  pub reads_whole : Bool

-- a[p] = v
abbrev pub update {ℓ} : {A : Type ℓ} → (ℕ → A) → ℕ → A → ℕ → A
update a p v q = if p == q then v else a q

-- list_MSI[p].M = ...; list_MSI[p].S = ...; list_MSI[p].I = ...
abbrev pub set_msi : ℕ → MsiList → Machine → Machine
set_msi p v x = record x { list_msi = update x.list_msi p v }

-- temp_data.page_num = p; temp_data.access_page = base_addr + (p * page_size)
abbrev pub select_page : ℕ → Machine → Machine
select_page p x = record x {
  temp_data = record t { page_num = pos p; access_page = p * x.page_size };
}
  where
    open x use {temp_data as t}
