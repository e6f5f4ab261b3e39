-- ===== src/Bus/Handler/Peers.antt =====
-- The page faults of machine 2 of Project_3/part4/part4.c, beside a session of machine 1.
use lkp.Bus.All.{Ends}
use lkp.Pages.Handler.{is_none_read, is_negative_one}
use lkp.Bus.Handler.{exits, waits, fault_round, Event}
use lkp.Bus.Single.{run-Leaves, expected_all, Leaves, AreSingle, IsReady}
use lkp.Prelude.{inr, ap, inl, ◌∙◌, arith, some, ◌⊎◌, true, none, false, ◌≡◌, ℕ, List}
use lkp.Bus.Data.{BusInfo, Turn, run, Command, Line, Globals}
use lkp.Bus.First

-- A page fault of machine 2, after a read of an invalid page has raised BusRd: with no message from
-- machine 1 it waits; with the signals of `y` it reads the message of the fault from descriptor 0,
-- and exits where that gives nothing, whatever its own descriptor gives.
abbrev pub NeedsStdin : Globals → List Line → Type 0
NeedsStdin y out =
    (base : ℕ) (e : Event) (x : Globals)
    → x.order ≡ 2
    → x.bus_signal.bus_rd ≡ 1
    → is_negative_one e.nready ≡ false
    → (fault_round base e none x ≡ waits)
      × ((is_none_read (e.nread 0) ≡ true) ⊎ (is_negative_one (e.nread 0) ≡ true)
          → fault_round base e (some y.bus_signal) x ≡ exits)

fault_round-waits :
    (base : ℕ) (e : Event) (x : Globals)
    → x.order ≡ 2
    → x.bus_signal.bus_rd ≡ 1
    → is_negative_one e.nready ≡ false
    → fault_round base e none x ≡ waits
unfolding fault_round
fault_round-waits base e x o b n = ground (arith, o, b, n)

fault_round-exits :
    (base : ℕ) (e : Event) (x : Globals) (m : BusInfo)
    → x.order ≡ 2
    → x.bus_signal.bus_rd ≡ 1
    → is_negative_one e.nready ≡ false
    → m.uffd ≡ 0
    → (is_none_read (e.nread 0) ≡ true) ⊎ (is_negative_one (e.nread 0) ≡ true)
    → fault_round base e (some m) x ≡ exits
unfolding fault_round
fault_round-exits base e x m o b n u (inl h) =
    let h' = ap (λ fd. is_none_read (e.nread fd)) u ∙ h in ground (arith, o, b, n, h')
fault_round-exits base e x m o b n u (inr h) =
    let h' = ap (λ fd. is_negative_one (e.nread fd)) u ∙ h in ground (arith, o, b, n, h')

Leaves-NeedsStdin :
    (x : Globals) (lines : List Line) (t : Turn)
    → x.bus_signal.uffd ≡ 0
    → Leaves x lines t
    → Ends NeedsStdin t
Leaves-NeedsStdin x lines none u l = absurd l
Leaves-NeedsStdin x lines (some (y, out)) u (_, _, kept, _) = λ base e x' o b n.
    (fault_round-waits base e x' o b n, fault_round-exits base e x' y.bus_signal o b n (kept ∙ u))

-- bus_signal.uffd, which no code assigns, is sent as the descriptor to read: after any session of
-- single pages on machine 1 from ready globals with the static 0 in it, a page fault of machine 2
-- for a read waits for a message of machine 1, and with it exits where descriptor 0 has nothing.
pub run-NeedsStdin :
    (cs : List Command) (x : Globals)
    → IsReady x
    → x.bus_signal.uffd ≡ 0
    → AreSingle cs
    → Ends NeedsStdin (run First.menu cs x)
run-NeedsStdin cs x z u s =
    Leaves-NeedsStdin x (expected_all cs x) (run First.menu cs x) u (run-Leaves cs x z s).0
