-- ===== src/Msi/Coherence/Rounds.antt =====
-- One command at one page keeps the two machines coherent.
use lkp.Msi.Memory.Strings.{string_at-cons, string_at-short, has_nul-at}
use lkp.Prelude.{
  ◌≢◌, ◌-◌, List, ◌⊎◌, ℕ, ◌+◌, ◌*◌, ◌≤◌, ◌<◌, ◌≡◌, [], ◌∷◌, arith, length, take, zero, suc, true,
}
use lkp.Msi.Data.{Machine, shared, select_page, set_msi}
use lkp.Msi.Client.{
  read_page, request, receive, received, region_string, ends_in_region, ends_in_buffer,
}
use lkp.Msi.Server.{handle}
use lkp.Msi.System.{Outcome, done, text, read_one}
use lkp.Msi.Coherence.Defs.{
  self_modified, peer_modified, Owners, nobody, both_shared, PageIs, Sized,
}

pub page-fits : (p n s : ℕ) → p < n → p * s + s ≤ n * s
page-fits p n s h = grind arith

pub pages-apart : (p q s : ℕ) → p < q → p * s + s ≤ q * s
pages-apart p q s h = page-fits p q s h

-- The machines after a fetch, for the reply `r`.
abbrev pub asks : ℕ → Machine → Machine
asks p a = request p (select_page p a)

abbrev pub answers : ℕ → Machine → Machine → Machine
answers p a b = set_msi p shared (record b { temp_data = (asks p a).temp_data })

-- What the read of a page in state `o` receives from the peer.
abbrev reply : Owners → ℕ → Machine → List ℕ
reply peer_modified p b = region_string b (p * b.page_size)
reply _ p b = 0x20 ∷ []

abbrev pub fetches : List ℕ → ℕ → Machine → Machine → Outcome
fetches r p a b =
    let a' = receive p r (asks p a) in done a' (answers p a b) (text (received a') ∷ [])

length-take_le : (k : ℕ) (r : List ℕ) → length (take k r) ≤ length r
length-take_le zero r = omega arith
length-take_le (suc k) [] = omega arith
length-take_le (suc k) (c ∷ cs) = omega (arith, length-take_le k cs)

module _ {n s : ℕ} {a b : Machine} (z : Sized n s a b) (p : ℕ) (h : p < n) where
  ends-here : (o : Owners) → PageIs o a b p → ends_in_region a (p * a.page_size) ≡ true
  ends-here o k =
      has_nul-at (a.mapped * a.page_size - p * a.page_size) a.mem (p * a.page_size)
        (a.page_size - 1) (ground (arith, page-fits p n s h)) k.self_ends

  ends-there : (o : Owners) → PageIs o a b p → ends_in_region b (p * b.page_size) ≡ true
  ends-there o k =
      has_nul-at (b.mapped * b.page_size - p * b.page_size) b.mem (p * b.page_size)
        (b.page_size - 1) (ground (arith, page-fits p n s h)) k.peer_ends

  -- The text of a page leaves room for its NUL.
  pub text-short : (o : Owners) → PageIs o a b p → length (region_string b (p * b.page_size)) < s
  text-short o k = omega (
    arith,
    z.some_bytes,
    z.peer_size,
    string_at-short (b.mapped * b.page_size - p * b.page_size) b.mem (p * b.page_size)
        (b.page_size - 1) k.peer_ends,
  )

  buffer-ends : (r : List ℕ) → length r < s → ends_in_buffer (receive p r (asks p a)) ≡ true
  unfolding receive request
  buffer-ends r lt =
      has_nul-at a.page_size (receive p r (asks p a)).recv_message 0 (a.page_size - 1)
        (omega (arith, z))
        (ground (arith, z.self_buffer, z.self_size, length-take_le a.page_size r))

  pub read_one-nobody : PageIs nobody a b p → read_one p a b ≡ fetches (0x20 ∷ []) p a b
  unfolding read_one read_page request handle
  read_one-nobody k = ground (arith, page-fits p n s h, buffer-ends (0x20 ∷ []) z.some_bytes)

  pub read_one-peer :
      PageIs peer_modified a b p
      → read_one p a b ≡ fetches (region_string b (p * b.page_size)) p a b
  unfolding read_one read_page request handle
  read_one-peer k = ground (
    arith,
    page-fits p n s h,
    string_at-cons (b.mapped * b.page_size - p * b.page_size) b.mem (p * b.page_size),
    ends-there peer_modified k,
    text-short peer_modified k,
    buffer-ends (region_string b (p * b.page_size)) (text-short peer_modified k),
  )

  pub read_one-local :
      (o : Owners)
      → PageIs o a b p
      → (o ≡ both_shared) ⊎ (o ≡ self_modified)
      → read_one p a b ≡ done (select_page p a) b (text (region_string a (p * a.page_size)) ∷ [])
  unfolding read_one read_page
  read_one-local nobody k e = ground arith
  read_one-local o k e = ground (arith, page-fits p n s h, ends-here o k)

  -- The state of the other pages survives a fetch.
  pub fetch-elsewhere :
      (r : List ℕ) (o : Owners) (q : ℕ)
      → q ≢ p
      → PageIs o a b q
      → PageIs o (receive p r (asks p a)) (answers p a b) q
  unfolding receive request
  fetch-elsewhere r nobody q ne k = ground arith
  fetch-elsewhere r o q ne k = ground (arith, pages-apart p q s, pages-apart q p s)

  pub fetch-here :
      (r : List ℕ) (o : Owners)
      → PageIs o a b p
      → PageIs both_shared (receive p r (asks p a)) (answers p a b) p
  unfolding receive request
  fetch-here r o k = ground (arith, k.peer_ends)

  pub fetch-Sized : (r : List ℕ) → length r < s → Sized n s (receive p r (asks p a)) (answers p a b)
  unfolding receive request
  fetch-Sized r lt = ground (arith, length-take_le a.page_size r)

  -- Reading the own copy changes no flag, no signal and no byte.
  pub local-elsewhere : (o : Owners) (q : ℕ) → PageIs o a b q → PageIs o (select_page p a) b q
  local-elsewhere nobody q k = ground arith
  local-elsewhere o q k = ground arith
