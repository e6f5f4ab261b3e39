-- ===== src/Msi/System.antt =====
-- The two machines of Project_3_new/part4/part4.c together. A command runs on one machine, and each
-- message it sends is handled by the server thread of the other before the command goes on.
use lkp.Prelude.{
  ℕ, zero, suc, ◌+◌, ◌*◌, ltb, length, if◌then◌else◌, Option, none, some, List, [], ◌∷◌, ◌++◌,
}
use lkp.Prelude.Int.{ℤ, pos, negsuc}
use lkp.Msi.Data.{Machine, MsiList}
use lkp.Msi.Client.{
  Access, fetch, local, skip, read_page, write_page, receive, received, ends_in_buffer,
  ends_in_region, region_string,
}
use lkp.Msi.Server.{handle}

-- A line that a command prints: the text of a page, or its flags.
pub data Line : Type 0 where
  text : List ℕ → Line
  flags : ℕ → MsiList → Line

-- `done` has the machine that ran the command first. `blocked` is a `read` whose reply never comes,
-- `stray` a reply that no `read` takes, `fault` undefined behaviour.
pub data Outcome : Type 0 where
  done : Machine → Machine → List Line → Outcome
  blocked : Machine → Machine → Outcome
  stray : Machine → Machine → Outcome
  fault : Outcome

-- The rest of a fetch, when the peer has handled the request. `send` of no bytes sends nothing.
unfoldable pub fetched : ℕ → Machine → Option (Machine × Option (List ℕ)) → Outcome
fetched p a none = fault
fetched p a (some (b, none)) = blocked a b
fetched p a (some (b, some [])) = blocked a b
fetched p a (some (b, some (c ∷ cs))) =
    let a' = receive p (c ∷ cs) a in
    if ends_in_buffer a'
    then (if ltb a.page_size (length (c ∷ cs))
        then stray a' b
        else done a' b (text (received a') ∷ []))
    else fault

unfoldable pub accessed : ℕ → Machine → Option (Machine × Access) → Outcome
unfolding fetched
accessed p b none = fault
accessed p b (some (a, fetch)) = fetched p a (handle a.temp_data b)
accessed p b (some (a, local s)) = done a b (text s ∷ [])
accessed p b (some (a, skip)) = done a b []

-- Command 'r' at one page.
unfoldable pub read_one : ℕ → Machine → Machine → Outcome
unfolding accessed
read_one p a b = accessed p b (read_page p a)

unfoldable pub notified : Machine → Option (Machine × Option (List ℕ)) → Outcome
notified a none = fault
notified a (some (b, none)) = done a b []
notified a (some (b, some r)) = stray a b

unfoldable pub written : Machine → Option Machine → Outcome
unfolding notified
written b none = fault
written b (some a) = notified a (handle a.temp_data b)

-- A round of the loop of command 'w'.
unfoldable pub write_one : ℕ → List ℕ → Machine → Machine → Outcome
unfolding written
write_one p message a b = written b (write_page p message a)

-- One round of a loop, and then the rest of it.
abbrev pub and_then : Outcome → (Machine → Machine → Outcome) → Outcome
and_then (done a b out) k = elim (k a b) [
  | done a' b' out' ↦ done a' b' (out ++ out')
  | blocked a' b' ↦ blocked a' b'
  | stray a' b' ↦ stray a' b'
  | fault ↦ fault
]
and_then (blocked a b) k = blocked a b
and_then (stray a b) k = stray a b
and_then fault k = fault

-- for (count = ...; count < page_count; count++), with `n` rounds left.
unfoldable pub read_from : ℕ → ℕ → Machine → Machine → Outcome
read_from zero count a b = done a b []
read_from (suc n) count a b = and_then (read_one count a b) (read_from n (count + 1))

unfoldable pub write_from : ℕ → ℕ → List ℕ → Machine → Machine → Outcome
write_from zero count message a b = done a b []
write_from (suc n) count message a b =
    and_then (write_one count message a b) (write_from n (count + 1) message)

-- while (start < page_count) of command 'v'.
unfoldable pub view_from : ℕ → ℕ → Machine → List Line
view_from zero start x = []
view_from (suc n) start x = flags start (x.list_msi start) ∷ view_from n (start + 1) x

-- scanf("%ld", &temp_data.page_num)
abbrev pub scan_page : ℤ → Machine → Machine
scan_page z x = record x { temp_data = record (x.temp_data) { page_num = z } }

-- printf("Writing %s\n", &addr[temp_data.access_page]), and the rest of 'w' at a single page.
unfoldable pub shown : ℕ → Machine → Option Machine → Outcome
unfolding written
shown p b none = fault
shown p b (some a) =
    if ends_in_region a (p * a.page_size)
    then and_then (done a b (text (region_string a (p * a.page_size)) ∷ []))
        (λ a' b'. written b' (some a'))
    else fault

-- Command 'w' at a single page, which prints what it has written; the loop of `-1` does not.
unfoldable pub write_single : ℕ → List ℕ → Machine → Machine → Outcome
unfolding shown
write_single p message a b = shown p b (write_page p message a)

unfoldable pub read_command : ℤ → Machine → Machine → Outcome
unfolding read_one read_from
read_command (pos p) a b = read_one p a b
read_command (negsuc zero) a b = read_from a.temp_data.page_count 0 (scan_page (negsuc zero) a) b
read_command (negsuc (suc n)) a b = fault

unfoldable pub write_command : ℤ → List ℕ → Machine → Machine → Outcome
unfolding write_single write_from
write_command (pos p) message a b = write_single p message a b
write_command (negsuc zero) message a b =
    write_from a.temp_data.page_count 0 message (scan_page (negsuc zero) a) b
write_command (negsuc (suc n)) message a b = fault

unfoldable pub view_command : ℤ → Machine → Machine → Outcome
unfolding view_from
view_command (pos p) a b = done (scan_page (pos p) a) b []
view_command (negsuc zero) a b =
    done (scan_page (negsuc zero) a) b (view_from a.temp_data.page_count 0 a)
view_command (negsuc (suc n)) a b = done (scan_page (negsuc (suc n)) a) b []

pub data Command : Type 0 where
  read : ℤ → Command
  write : ℤ → List ℕ → Command
  view : ℤ → Command

-- One turn of the loop of `menu`.
unfoldable pub menu : Command → Machine → Machine → Outcome
unfolding read_command write_command view_command
menu (read z) a b = read_command z a b
menu (write z message) a b = write_command z message a b
menu (view z) a b = view_command z a b

pub data Side : Type 0 where
  first second : Side

-- The machines of an outcome, in the other order.
abbrev pub flip : Outcome → Outcome
flip (done a b out) = done b a out
flip (blocked a b) = blocked b a
flip (stray a b) = stray b a
flip fault = fault

-- A session: who types which command. The outcome has the first machine first.
unfoldable pub run : List (Side × Command) → Machine → Machine → Outcome
unfolding menu
run [] a b = done a b []
run ((first, c) ∷ cs) a b = and_then (menu c a b) (run cs)
run ((second, c) ∷ cs) a b = and_then (flip (menu c b a)) (run cs)
