-- ===== src/Pages/Menu.antt =====
-- One turn of the menu of Project_3/part3/part3.c.
use lkp.Pages.Access.{mem_write, mem_read}
use lkp.Pages.Data.{all_pages, Process}
use lkp.Prelude.{◌==◌, ◌||◌, [], none, ltb, length, Bool, some, if◌then◌else◌, List, Option, ℕ}

pub data Command : Type 0 where
  r : ℕ → Command
  w : ℕ → List ℕ → Command

-- What a turn prints: the strings of the pages, or that the page is out of range.
pub data Reply : Type 0 where
  pages : List (List ℕ) → Reply
  refused : Reply

abbrev pub has_page : Process → ℕ → Bool
has_page x access = ltb access x.mch.pg_size || access == all_pages

abbrev replied : Process → Option (List (List ℕ)) → Option (Process × Reply)
replied x none = none
replied x (some out) = some (x, pages out)

abbrev kept : Option Process → Option (Process × Reply)
kept none = none
kept (some x) = some (x, pages [])

-- `none`: a fault; scanf stores the message and its NUL in a buffer of page_size bytes.
unfoldable pub menu : Command → Process → Option (Process × Reply)
menu (r access) x = if has_page x access then replied x (mem_read access x) else some (x, refused)
menu (w access message) x =
    if has_page x access
    then (if ltb (length message) x.page_size then kept (mem_write access message x) else none)
    else some (x, refused)
