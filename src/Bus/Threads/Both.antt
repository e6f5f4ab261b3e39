-- ===== src/Bus/Threads/Both.antt =====
-- How two programs of Project_3/part4/part4.c come to their menus.
use mathlib.Core.Path.{subst}
use lkp.Msi.Data.{MsiList}
use lkp.Pages.Data.{Stuff}
use lkp.Pages.Start
use lkp.Pages.Start.{sent}
use lkp.Pages.Start.Regions.{Succeeds, sent_data, sent_lem}
use lkp.Pages.Threads.{Calls, Input, message, Heard, no_stuff}
use lkp.Pages.Threads.Connected.{Connects, message_lem, client_lem, server_accept_lem}
use lkp.Bus.Data.{states_size, Globals}
use lkp.Bus.Start.{server_socket, client_socket}
use lkp.Bus.Start.Ready.{StartsReady, start-Ready}
use lkp.Bus.Threads.{
  Thread, returns, stops, hears, in_menu, opened, opens_first, opens_second, joined, main,
}
use lkp.Prelude.{
  inr, inl, ℕ, Option, none, some, Bool, true, false, ◌≡◌, ◌≤◌, ◌*◌, ◌%◌, ◌<◌, ◌^◌, ◌∙◌, arith,
  refl, Bool-cases, sym, if◌then◌else◌, suc, ap,
}

-- Both programs come to their menus with ready globals, where server_socket of machine 1 looks at `order`
-- when it is set; otherwise machine 1 ends, which closes the connection, and machine 2 exits too.
abbrev pub BothStart : Bool → ℕ → ℕ → MsiList → Thread → Thread → Type 0
BothStart true count length before p q =
    (x y : Globals) × (p ≡ in_menu x)
    × (q ≡ in_menu y)
    × StartsReady count before length (some x)
    × StartsReady count before 0 (some y)
BothStart false count length before p q = (p ≡ returns) × (q ≡ stops)

StartsReady-some :
    {count length : ℕ} {before : MsiList} (o : Option Globals)
    → StartsReady count before length o
    → (x : Globals) × (o ≡ some x) × StartsReady count before length (some x)
StartsReady-some none h = absurd h
StartsReady-some (some x) h = (x, refl, h)

opened_lem :
    (s : Calls) (c : Start.Calls) (o : Option Globals) (x : Globals) (page : ℕ)
    → s.sockets.pthread_create 2 ≡ true
    → c.mmap 0 c.page_size ≡ some page
    → o ≡ some x
    → opened s c o ≡ in_menu x
opened_lem s c o x page h k e = ap (opened s c) e ∙ ground (arith, h, k)

main-first :
    (fuel : ℕ) (s : Calls) (c : Start.Calls) (before : MsiList) (i : Input) (n fd : ℕ)
    (received : Heard)
    → Connects fuel s i (suc n) fd
    → main fuel s c before i received
      ≡ joined (if i.is_set then opens_first s c before (sent c i.count) else returns) returns
unfolding main
main-first fuel s c before i n fd received k =
    rw (client_lem k, server_accept_lem k, k.creates 0, k.creates 1) (ground arith)

main-second :
    (fuel : ℕ) (s : Calls) (c : Start.Calls) (before : MsiList) (i : Input) (fd : ℕ)
    (received : Heard)
    → Connects fuel s i 0 fd
    → main fuel s c before i received ≡ joined returns (opens_second s c before received)
unfolding main
main-second fuel s c before i fd received k =
    rw (client_lem k, server_accept_lem k, k.creates 0, k.creates 1) (ground arith)

-- Machine 2 after the end of the connection: mmap refuses the length 0.
closed-stops :
    (d : Start.Calls) (before : MsiList) (a len b : ℕ)
    → Succeeds d a len b
    → d.mmap 0 0 ≡ none
    → client_socket d no_stuff before ≡ none
unfolding client_socket
closed-stops d before a len b g z =
    let e : 0 * d.page_size % 2 ^ 64 ≡ 0 = omega arith in
    ground (arith, g.has_fd, ap (d.mmap 0) e ∙ z)

-- Where the calls of both programs succeed as for their start, the page sizes are equal and
-- positive, the region is shorter than 2 ^ 31 bytes, states_list has room for its pages, each has
-- memory for the page of its page fault thread, mmap refuses a length of 0 for the second, and
-- their sockets connect the one behind a failed attempt and the other at once, then, whatever comes
-- to the first from the other: if server_socket of the first looks at `order` when it is set, both
-- programs come to their menus, with the same page count, all pages invalid and no signal raised,
-- and with data.length the length of the region on the first and 0 on the second. If it looks
-- before that, the first program ends without a menu, and so does the other, which finds the
-- connection closed and asks for a region of length 0.
pub main-BothStart :
    (fuel gas : ℕ) (s t : Calls) (c d : Start.Calls) (before : MsiList) (i j : Input)
    (n fd gd a b page other_page : ℕ) (heard : Heard)
    → 0 < c.page_size
    → d.page_size ≡ c.page_size
    → i.count * c.page_size < 2 ^ 31
    → i.count ≤ states_size
    → Succeeds c 0 (i.count * c.page_size) a
    → Succeeds d a (i.count * c.page_size) b
    → c.mmap 0 c.page_size ≡ some page
    → d.mmap 0 d.page_size ≡ some other_page
    → d.mmap 0 0 ≡ none
    → Connects fuel s i (suc n) fd
    → Connects gas t j 0 gd
    → BothStart i.is_set i.count
        (i.count * c.page_size)
        before
        (main fuel s c before i heard)
        (main gas t d before j (hears (message fuel s c i) (main fuel s c before i heard)))
main-BothStart fuel gas s t c d before i j n fd gd a b page other_page heard h e k fits f g m o v0 p
      q =
    let p1 = main fuel s c before i heard in
    let p2 = main gas t d before j (hears (message fuel s c i) (main fuel s c before i heard)) in
    let first = main-first fuel s c before i n fd heard p in
    let second = main-second gas t d before j gd (hears (message fuel s c i) p1) q in
    let told = message_lem fuel s c i n fd p in
    let v = sent_lem c i.count a k f in
    let msg : Stuff = sent_data a i.count c.page_size in
    let starts = (start-Ready c d msg before b h e refl k f g).0 fits in
    elim (Bool-cases i.is_set) [
      | inl y ↦
          let (x, ex, lx) = StartsReady-some (server_socket c msg before) starts.0 in
          let (z, ez, lz) = StartsReady-some (client_socket d msg before) starts.1 in
          let u : p1 ≡ in_menu x =
            first
            ∙ rw (y, v, opened_lem s c (server_socket c msg before) x page (p.creates 2) m ex)
                refl in
          let w : p2 ≡ in_menu z =
            second
            ∙ rw
                (
                  told,
                  y,
                  v,
                  opened_lem t d (client_socket d msg before) z other_page (q.creates 2) o ez,
                )
                refl in
          subst (λ r. BothStart r i.count (i.count * c.page_size) before p1 p2) (sym y)
            (x, z, u, w, lx, lz)
      | inr y ↦
          let u : p1 ≡ returns = first ∙ rw y refl in
          let w : p2 ≡ stops =
            second ∙ rw (u, told, y, closed-stops d before a (i.count * c.page_size) b g v0) refl in
          subst (λ r. BothStart r i.count (i.count * c.page_size) before p1 p2) (sym y) (u, w)
    ]
