-- ===== src/Msi/Coherence/Writes.antt =====
-- A write at one page keeps the two machines coherent, and takes the page.
use lkp.Msi.Coherence.Rounds.{pages-apart, page-fits}
use lkp.Msi.Memory.Strings.{has_nul-at}
use lkp.Msi.Server.{handle}
use lkp.Msi.Memory.{memcpy}
use lkp.Msi.System.{done, text, write_one, write_single}
use lkp.Msi.Client.{write_page, signal_write, ends_in_region, region_string}
use lkp.Msi.Coherence.Defs.{self_modified, nobody, self_flags, PageIs, Sized, Owners}
use lkp.Msi.Data.{modified, invalid, select_page, MsiList, set_msi, Machine}
use lkp.Prelude.{◌≢◌, get_or, arith, [], ◌∷◌, ◌-◌, some, true, ◌≡◌, ◌*◌, length, ◌<◌, List, ℕ}

-- The writer after `send`.
abbrev pub writer : ℕ → List ℕ → MsiList → Machine → Machine
writer p message v a =
    let y = select_page p (set_msi p modified (signal_write p v a)) in
    record y { mem = memcpy y.mem (p * a.page_size) message }

-- The peer, once it has handled the message.
abbrev pub invalidated : ℕ → Owners → Machine → Machine → Machine
invalidated p nobody a b = record b { temp_data = a.temp_data }
invalidated p self_modified a b = record b { temp_data = a.temp_data }
invalidated p _ a b = set_msi p invalid (record b { temp_data = a.temp_data })

module _ {n s : ℕ} {a b : Machine} (z : Sized n s a b) (p : ℕ) (h : p < n) (message : List ℕ)
    (fits : length message < s) where
  pub write_one_lem :
      (o : Owners)
      → PageIs o a b p
      → let a' = writer p message (self_flags o) a in
        write_one p message a b ≡ done a' (invalidated p o a' b) []
  unfolding write_one write_page handle signal_write
  write_one_lem nobody k = ground (arith, page-fits p n s h)
  write_one_lem o k = ground (arith, page-fits p n s h)

  pub write-elsewhere :
      (o o' : Owners) (q : ℕ)
      → q ≢ p
      → PageIs o' a b q
      → PageIs o'
          (writer p message (self_flags o) a)
          (invalidated p o (writer p message (self_flags o) a) b)
          q
  unfolding signal_write
  write-elsewhere nobody nobody q ne k = ground (arith, pages-apart p q s, pages-apart q p s)
  write-elsewhere o nobody q ne k = ground (arith, pages-apart p q s, pages-apart q p s)
  write-elsewhere o o' q ne k = ground (arith, pages-apart p q s, pages-apart q p s)

  -- What is stored leaves the NUL at the end of the page.
  pub written-ends :
      (o : Owners)
      → PageIs o a b p
      → ends_in_region (writer p message (self_flags o) a) (p * a.page_size) ≡ true
  unfolding signal_write
  written-ends nobody k =
      has_nul-at (a.mapped * a.page_size - p * a.page_size) _ (p * a.page_size) (a.page_size - 1)
        (ground (arith, page-fits p n s h)) (ground (arith, k.self_ends))
  written-ends o k =
      has_nul-at (a.mapped * a.page_size - p * a.page_size) _ (p * a.page_size) (a.page_size - 1)
        (ground (arith, page-fits p n s h)) (ground (arith, k.self_ends))

  pub write_page_lem :
      (o : Owners)
      → PageIs o a b p
      → write_page p message a ≡ some (writer p message (self_flags o) a)
  unfolding write_page signal_write
  write_page_lem nobody k = ground (arith, page-fits p n s h)
  write_page_lem o k = ground (arith, page-fits p n s h)

  -- A single page is written as in a round of the loop, and the text there is printed.
  pub write_single_lem :
      (o : Owners)
      → PageIs o a b p
      → let a' = writer p message (self_flags o) a in
        write_single p message a b
        ≡ done a' (invalidated p o a' b) (text (region_string a' (p * a.page_size)) ∷ [])
  unfolding write_single handle signal_write
  write_single_lem nobody k = ground (arith, write_page_lem nobody k, written-ends nobody k)
  write_single_lem o k = ground (arith, write_page_lem o k, written-ends o k)

  -- The writer has the page, and the peer has lost it.
  pub write-here :
      (o : Owners)
      → 0 < length message
      → 0 < get_or message 0 0
      → PageIs o a b p
      → PageIs self_modified
          (writer p message (self_flags o) a)
          (invalidated p o (writer p message (self_flags o) a) b)
          p
  unfolding signal_write
  write-here nobody some_text first k = ground arith
  write-here o some_text first k = ground arith

  pub write-Sized :
      (o : Owners)
      → Sized n s
          (writer p message (self_flags o) a)
          (invalidated p o (writer p message (self_flags o) a) b)
  unfolding signal_write
  write-Sized nobody = ground arith
  write-Sized o = ground arith
