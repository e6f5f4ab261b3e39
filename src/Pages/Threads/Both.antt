-- ===== src/Pages/Threads/Both.antt =====
-- How two programs of Project_3/part3/part3.c come to their menus.
use mathlib.Core.Path.{subst}
use lkp.Pages.Data.{Process}
use lkp.Pages.Start
use lkp.Pages.Start.{sent, start_first, start_second, registered}
use lkp.Pages.Start.Regions.{
  Succeeds, AgreeOn, region, sent_lem, start_first_lem, start_second_lem, regions-AgreeOn,
}
use lkp.Pages.Threads.Connected.{
  Connects, message_lem, message_second, client_lem, server_accept_lem,
}
use lkp.Pages.Threads.{
  receives, set_up, ended, joined, Heard, hears, no_stuff, Calls, Input, Outcome, menu_of, message,
  main, handler_page, statics,
}
use lkp.Prelude.{
  suc, ap, ◌∙◌, ◌%◌, inr, inl, if◌then◌else◌, ℕ, none, some, Bool, true, false, ◌≡◌, ◌*◌, ◌<◌, ◌^◌,
  arith, refl, Bool-cases, sym,
}

-- Both programs come to their menus with regions that agree, where server_socket of machine 1 looks at
-- `order` when it is set; otherwise machine 1 exits, which closes the connection, and machine 2 exits too: its recv gives nothing,
-- and the page count in recv_data is 0.
abbrev pub BothEnd : Bool → ℕ → ℕ → ℕ → Outcome → Outcome → Type 0
BothEnd true count a b p q =
    (x y : Process) × (p ≡ menu_of x) × (q ≡ menu_of y) × AgreeOn count a b (some (x, y))
BothEnd false count a b p q = (p ≡ Outcome.exits) × (q ≡ Outcome.exits)

-- Machine 1, at the end of its threads.
main-first :
    (fuel : ℕ) (s : Calls) (c : Start.Calls) (i : Input) (n fd : ℕ) (received : Heard)
    → Connects fuel s i (suc n) fd
    → main fuel s c i received
      ≡ joined s c 1
          (if i.is_set then set_up (start_first c i.count) else ended statics)
          (ended statics)
unfolding main
main-first fuel s c i n fd received k =
    rw (client_lem k, server_accept_lem k, k.creates 0, k.creates 1) (ground arith)

main-second :
    (fuel : ℕ) (s : Calls) (c : Start.Calls) (i : Input) (fd : ℕ) (received : Heard)
    → Connects fuel s i 0 fd
    → main fuel s c i received ≡ joined s c 2 (ended statics) (receives c received)
unfolding main
main-second fuel s c i fd received k =
    rw (client_lem k, server_accept_lem k, k.creates 0, k.creates 1) (ground arith)

joined-first :
    (s : Calls) (c : Start.Calls) (x y : Process) (page : ℕ)
    → s.sockets.pthread_create 2 ≡ true
    → c.mmap 0 x.page_size ≡ some page
    → joined s c 1 (ended x) (ended y) ≡ menu_of x
unfolding handler_page
joined-first s c x y page h k = ground (arith, h, k)

joined-second :
    (s : Calls) (c : Start.Calls) (x y : Process) (page : ℕ)
    → s.sockets.pthread_create 2 ≡ true
    → c.mmap 0 y.page_size ≡ some page
    → joined s c 2 (ended x) (ended y) ≡ menu_of y
unfolding handler_page
joined-second s c x y page h k = ground (arith, h, k)

joined-exits :
    (s : Calls) (c : Start.Calls)
    → s.sockets.pthread_create 2 ≡ true
    → c.mmap 0 0 ≡ none
    → joined s c 1 (ended statics) (ended statics) ≡ Outcome.exits
unfolding handler_page
joined-exits s c h k = ground (arith, h, k)

-- Machine 2 after the end of the connection: mmap refuses the length 0.
closed-exits :
    (d : Start.Calls) (a len b : ℕ)
    → Succeeds d a len b
    → d.mmap 0 0 ≡ none
    → start_second d no_stuff ≡ none
unfolding start_second
closed-exits d a len b g z =
    let e : 0 * d.page_size % 2 ^ 64 ≡ 0 = omega arith in
    ground (arith, g.has_fd, ap (d.mmap 0) e ∙ z)

-- Where the calls of both programs succeed as for the start of their regions, the page sizes are
-- equal and positive, the region is shorter than 2 ^ 31 bytes, each has memory for the page of its
-- page fault thread, mmap refuses a length of 0 for both, and their sockets connect the one behind
-- a failed attempt and the other at once, then, whatever comes to the first from the other: if
-- server_socket of the first looks at `order` when it is set, both programs come to their menus,
-- with regions that agree. If it looks before that, the first exits, and so does the other, which
-- finds the connection closed and asks for a region of length 0.
pub main-BothEnd :
    (fuel gas : ℕ) (s t : Calls) (c d : Start.Calls) (i j : Input) (n fd gd a b page other_page : ℕ)
    (heard : Heard)
    → 0 < c.page_size
    → d.page_size ≡ c.page_size
    → i.count * c.page_size < 2 ^ 31
    → Succeeds c 0 (i.count * c.page_size) a
    → Succeeds d a (i.count * c.page_size) b
    → c.mmap 0 c.page_size ≡ some page
    → d.mmap 0 d.page_size ≡ some other_page
    → c.mmap 0 0 ≡ none
    → d.mmap 0 0 ≡ none
    → Connects fuel s i (suc n) fd
    → Connects gas t j 0 gd
    → BothEnd i.is_set i.count a b
        (main fuel s c i heard)
        (main gas t d j (hears (message fuel s c i) (main fuel s c i heard)))
main-BothEnd fuel gas s t c d i j n fd gd a b page other_page heard h e k f g m o z y0 p q =
    elim (Bool-cases i.is_set) [
      | inl y ↦
          let x : main fuel s c i heard ≡ menu_of (region a a i.count c.page_size f.fd) =
            main-first fuel s c i n fd heard p
            ∙ rw y (
                rw (start_first_lem c i.count a k f) (
                  joined-first s c (region a a i.count c.page_size f.fd) statics page (p.creates 2)
                    m)) in
          let w : main gas t d j (hears (message fuel s c i) (main fuel s c i heard))
              ≡ menu_of (region b a i.count c.page_size g.fd) =
            main-second gas t d j gd (hears (message fuel s c i) (main fuel s c i heard)) q
            ∙ rw
                (
                  message_lem fuel s c i n fd p,
                  y,
                  sent_lem c i.count a k f,
                  start_second_lem d i.count a b c.page_size e k g,
                )
                (joined-second t d statics (region b a i.count c.page_size g.fd) other_page
                  (q.creates 2) (ap (d.mmap 0) (sym e) ∙ o)) in
          subst
            (λ e.
              BothEnd e i.count a b (main fuel s c i heard)
                (main gas t d j (hears (message fuel s c i) (main fuel s c i heard))))
            (sym y)
            (
              region a a i.count c.page_size f.fd,
              region b a i.count c.page_size g.fd,
              x,
              w,
              regions-AgreeOn i.count a b c.page_size f.fd g.fd h k,
            )
      | inr y ↦
          let x : main fuel s c i heard ≡ Outcome.exits =
            main-first fuel s c i n fd heard p ∙ rw y (joined-exits s c (p.creates 2) z) in
          let w : main gas t d j (hears (message fuel s c i) (main fuel s c i heard))
              ≡ Outcome.exits =
            main-second gas t d j gd (hears (message fuel s c i) (main fuel s c i heard)) q
            ∙ rw
                (
                  x,
                  message_lem fuel s c i n fd p,
                  y,
                  closed-exits d a (i.count * c.page_size) b g y0,
                )
                refl in
          subst
            (λ e.
              BothEnd e i.count a b (main fuel s c i heard)
                (main gas t d j (hears (message fuel s c i) (main fuel s c i heard))))
            (sym y) (x, w)
    ]

-- Two programs that both listen before either connects are both machine 2, and wait for each other.
main-both_second :
    (fuel gas : ℕ) (s t : Calls) (c d : Start.Calls) (i j : Input) (fd gd : ℕ)
    → Connects fuel s i 0 fd
    → Connects gas t j 0 gd
    → (main fuel s c i (hears (message gas t d j) Outcome.waits) ≡ Outcome.waits)
      × (main gas t d j (hears (message fuel s c i) Outcome.waits) ≡ Outcome.waits)
main-both_second fuel gas s t c d i j fd gd p q = (
  main-second fuel s c i fd _ p ∙ rw (message_second gas t d j gd q) refl,
  main-second gas t d j gd _ q ∙ rw (message_second fuel s c i fd p) refl,
)
