-- ===== src/Msi/Roles/Ordered.antt =====
-- Two processes of which one was started before the other: what every run keeps, and its length.
use mathlib.Core.Path.{subst}
use lkp.Msi.Roles.{
  here, then_, listen, accept, expect, serve, receive_info, connect_fails, connect, set_first,
  set_second, reconnect, ask, wait, send_info, go_on, first, second, Process, Move, Runs, ServerAt,
  ClientAt, binding, accepting, checking, awaiting, serving, trying, refused, joined, retrying,
  choosing, asking, waiting, in_menu,
}
use lkp.Prelude.{ap, ℕ, Bool, true, ◌≡◌, ◌≤◌, ◌<◌, ◌+◌, refl, arith}

-- The steps that a process has left at most.
abbrev pub server_left : ServerAt → ℕ
server_left binding = 4
server_left accepting = 3
server_left checking = 2
server_left awaiting = 1
server_left serving = 0

abbrev pub client_left : ClientAt → ℕ
client_left trying = 5
client_left refused = 4
client_left joined = 3
client_left retrying = 3
client_left choosing = 2
client_left asking = 1
client_left waiting = 1
client_left in_menu = 0

abbrev pub left : Process → ℕ
left x = server_left x.server + client_left x.client

pub move-left : (x y x' : Process) → Move x y x' → left x' < left x
move-left x y x' (listen e) = omega (arith, ap server_left e)
move-left x y x' (accept e k) = omega (arith, ap server_left e)
move-left x y x' (expect e k) = omega (arith, ap server_left e)
move-left x y x' (serve e k) = omega (arith, ap server_left e)
move-left x y x' (receive_info e k) = omega (arith, ap server_left e)
move-left x y x' (connect_fails e k) = omega (arith, ap client_left e)
move-left x y x' (connect e k) = omega (arith, ap client_left e)
move-left x y x' (set_first e) = omega (arith, ap client_left e)
move-left x y x' (set_second e) = omega (arith, ap client_left e)
move-left x y x' (reconnect e k) = omega (arith, ap client_left e)
move-left x y x' (ask e k) = omega (arith, ap client_left e)
move-left x y x' (wait e k) = omega (arith, ap client_left e)
move-left x y x' (send_info e) = omega (arith, ap client_left e)
move-left x y x' (go_on e k) = omega (arith, ap client_left e)

-- Where the first process is.
abbrev pub IsUp : ServerAt → Type 0
IsUp binding = ⊥
IsUp awaiting = ⊥
IsUp accepting = Unit {0}
IsUp checking = Unit {0}
IsUp serving = Unit {0}

abbrev pub IsFirst : ClientAt → Bool → Type 0
IsFirst trying s = ⊥
IsFirst refused s = ⊥
IsFirst joined s = ⊥
IsFirst waiting s = ⊥
IsFirst retrying s = Unit {0}
IsFirst choosing s = Unit {0}
IsFirst asking s = Unit {0}
IsFirst in_menu s = s ≡ true

-- Where the second is.
abbrev pub IsSecond : ClientAt → ℕ → Bool → Type 0
IsSecond trying k m = Unit {0}
IsSecond joined k m = Unit {0}
IsSecond choosing k m = k ≡ 2
IsSecond waiting k m = k ≡ 2
IsSecond in_menu k m = (k ≡ 2) × (m ≡ true)
IsSecond refused k m = ⊥
IsSecond retrying k m = ⊥
IsSecond asking k m = ⊥

abbrev pub Ordered : Process → Process → Type 0
Ordered x y =
    (x.mch_num ≡ 1)
    × IsUp x.server
    × IsFirst x.client x.info_sent
    × IsSecond y.client y.mch_num y.mapped

IsSecond-mapped : (c : ClientAt) (k : ℕ) (m : Bool) → IsSecond c k m → IsSecond c k true
IsSecond-mapped refused k m h = elim h [ ]
IsSecond-mapped retrying k m h = elim h [ ]
IsSecond-mapped asking k m h = elim h [ ]
IsSecond-mapped trying k m h = tt
IsSecond-mapped joined k m h = tt
IsSecond-mapped choosing k m h = h
IsSecond-mapped waiting k m h = h
IsSecond-mapped in_menu k m h = (h.0, refl)

first-Ordered : (x y x' : Process) → Move x y x' → Ordered x y → Ordered x' y
first-Ordered x y x' (listen e) (a, u, f, s) = absurd (subst IsUp e u)
first-Ordered x y x' (accept e k) (a, u, f, s) = (a, tt, f, s)
first-Ordered x y x' (expect e k) (a, u, f, s) = absurd (omega (arith, a, k))
first-Ordered x y x' (serve e k) (a, u, f, s) = (a, tt, f, s)
first-Ordered x y x' (receive_info e k) (a, u, f, s) = absurd (subst IsUp e u)
first-Ordered x y x' (connect_fails e k) (a, u, f, s) =
    absurd (subst (λ c. IsFirst c x.info_sent) e f)
first-Ordered x y x' (connect e k) (a, u, f, s) = absurd (subst (λ c. IsFirst c x.info_sent) e f)
first-Ordered x y x' (set_first e) (a, u, f, s) = absurd (subst (λ c. IsFirst c x.info_sent) e f)
first-Ordered x y x' (set_second e) (a, u, f, s) = absurd (subst (λ c. IsFirst c x.info_sent) e f)
first-Ordered x y x' (reconnect e k) (a, u, f, s) = (a, u, tt, s)
first-Ordered x y x' (ask e k) (a, u, f, s) = (a, u, tt, s)
first-Ordered x y x' (wait e k) (a, u, f, s) = absurd (k a)
first-Ordered x y x' (send_info e) (a, u, f, s) = (a, u, refl, s)
first-Ordered x y x' (go_on e k) (a, u, f, s) = absurd (subst (λ c. IsFirst c x.info_sent) e f)

abbrev pub Placed : Process → ClientAt → Type 0
Placed y c = IsSecond c y.mch_num y.mapped

second-Ordered : (x y y' : Process) → Move y x y' → Ordered x y → Ordered x y'
second-Ordered x y y' (listen e) o = o
second-Ordered x y y' (accept e k) o = o
second-Ordered x y y' (expect e k) o = o
second-Ordered x y y' (serve e k) o = o
second-Ordered x y y' (receive_info e k) (a, u, f, s) =
    (a, u, f, IsSecond-mapped y.client y.mch_num y.mapped s)
second-Ordered x y y' (connect_fails e k) (a, u, f, s) = absurd (subst IsUp k u)
second-Ordered x y y' (connect e k) (a, u, f, s) = (a, u, f, tt)
second-Ordered x y y' (set_first e) (a, u, f, s) = absurd (subst (Placed y) e s)
second-Ordered x y y' (set_second e) (a, u, f, s) = (a, u, f, refl)
second-Ordered x y y' (reconnect e k) (a, u, f, s) = absurd (subst (Placed y) e s)
second-Ordered x y y' (ask e k) (a, u, f, s) = absurd (omega (arith, subst (Placed y) e s, k))
second-Ordered x y y' (wait e k) (a, u, f, s) = (a, u, f, subst (Placed y) e s)
second-Ordered x y y' (send_info e) (a, u, f, s) = absurd (subst (Placed y) e s)
second-Ordered x y y' (go_on e k) (a, u, f, s) = (a, u, f, (subst (Placed y) e s, k))

-- A run from there is short, and keeps the order.
pub steps-Ordered :
    (a b : Process) (n : ℕ) (x y : Process)
    → Ordered a b
    → Runs a b n x y
    → Ordered x y × (n + (left x + left y) ≤ left a + left b)
steps-Ordered a b n x y o here = (o, omega arith)
steps-Ordered a b n x y o (then_ {x' = x'} {y' = y'} r (first m)) =
    let (o', l) = steps-Ordered a b _ x' y' o r in
    (first-Ordered x' y' x m o', omega (arith, l, move-left x' y' x m))
steps-Ordered a b n x y o (then_ {x' = x'} {y' = y'} r (second m)) =
    let (o', l) = steps-Ordered a b _ x' y' o r in
    (second-Ordered x' y' y m o', omega (arith, l, move-left y' x' y m))
