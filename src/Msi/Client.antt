-- ===== src/Msi/Client.antt =====
-- The commands of `menu` in Project_3_new/part4/part4.c, up to the message that each one sends.
-- `none` is undefined behaviour: an index outside an array, or an access outside the mapping.
use lkp.Prelude.{
  ℕ, ◌+◌, ◌-◌, ◌*◌, Bool, Option, none, some, List, ltb, leb, if◌then◌else◌, length, take, ◌&&◌,
}
use lkp.Msi.Data.{Machine, MsiList, modified, shared, max_size, update, set_msi, select_page}
use lkp.Msi.Memory.{memset, memcpy, string_at, has_nul}

-- The bytes [off, off + n) lie in the mapping.
abbrev pub in_region : Machine → ℕ → ℕ → Bool
in_region x off n = leb (off + n) (x.mapped * x.page_size)

-- `&addr[off]` as a string, where it ends in the mapping.
abbrev pub region_string : Machine → ℕ → List ℕ
region_string x off = string_at (x.mapped * x.page_size - off) x.mem off

-- Whether the string `&addr[off]` ends in the mapping.
abbrev pub ends_in_region : Machine → ℕ → Bool
ends_in_region x off = has_nul (x.mapped * x.page_size - off) x.mem off

pub data Access : Type 0 where
  fetch : Access  -- the request is sent, and the reply is awaited
  local : List ℕ → Access  -- the own copy is printed
  skip : Access  -- no flag of the page is set

-- The branch for an invalid page: the machine as it is when `send` is called.
unfoldable pub request : ℕ → Machine → Machine
request p x = set_msi p shared (record x {
  mem = memset x.mem t.access_page 0 x.page_size;
  temp_data = record t {
    read_signal = update t.read_signal p 1;
    pagefault_signal = update t.pagefault_signal p 1;
    invalidate_signal = update t.invalidate_signal p 0;
  };
})
  where
    open x use {temp_data as t}

-- The tests of one page under command 'r'.
unfoldable pub read_flags : ℕ → MsiList → Machine → Option (Machine × Access)
unfolding request
read_flags p v x =
    if v.i
    then (if in_region x t.access_page x.page_size then some (request p x, fetch) else none)
    else if v.s
    then (if ends_in_region x t.access_page
        then some (x, local (region_string x t.access_page))
        else none)
    else if v.m
    then (if ends_in_region x t.access_page
        then some (x, local (region_string x t.access_page))
        else none)
    else some (x, skip)
  where
    open x use {temp_data as t}

unfoldable pub read_page : ℕ → Machine → Option (Machine × Access)
unfolding read_flags
read_page p x = if ltb p max_size then read_flags p (x.list_msi p) (select_page p x) else none

-- read(client_fd, recv_message, page_size) and what follows it.
unfoldable pub receive : ℕ → List ℕ → Machine → Machine
receive p reply x = record x {
  recv_message = memcpy x.recv_message 0 (take x.page_size reply);
  temp_data = record t { read_signal = update t.read_signal p 0 };
}
  where
    open x use {temp_data as t}

-- printf("Reading the page %s\n", recv_message), where a NUL stands in the buffer
abbrev pub received : Machine → List ℕ
received x = string_at x.page_size x.recv_message 0

-- The signals that a write raises.
unfoldable pub signal_write : ℕ → MsiList → Machine → Machine
signal_write p v x =
    if v.i
    then record x {
      temp_data = record t {
        pagefault_signal = update t.pagefault_signal p 1;
        bus_rdx = update t.bus_rdx p 1;
        invalidate_signal = update t.invalidate_signal p 1;
        read_signal = update t.read_signal p 0;
      };
    }
    else if v.s
    then record x {
      temp_data = record t {
        bus_upgr = update t.bus_upgr p 1;
        invalidate_signal = update t.invalidate_signal p 1;
        read_signal = update t.read_signal p 0;
      };
    }
    else x
  where
    open x use {temp_data as t}

-- Whether "%s" of recv_message ends in the buffer of page_size bytes.
abbrev pub ends_in_buffer : Machine → Bool
ends_in_buffer x = has_nul x.page_size x.recv_message 0

-- The machine as it is when `send` is called. scanf stores a NUL behind the text, in a buffer of
-- page_size bytes.
unfoldable pub write_page : ℕ → List ℕ → Machine → Option Machine
unfolding signal_write
write_page p message x =
    let y = select_page p (set_msi p modified (signal_write p (x.list_msi p) x)) in
    if ltb p max_size && ltb (length message) x.page_size
    then (if in_region x (p * x.page_size) (length message)
        then some (record y { mem = memcpy y.mem (p * x.page_size) message })
        else none)
    else none
