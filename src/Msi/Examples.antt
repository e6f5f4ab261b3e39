-- ===== src/Msi/Examples.antt =====
-- Runs of the model of Project_3_new/part4/part4.c, and its theorems at concrete machines.
use lkp.Msi.Coherence.Exchange.{write-read_one}
use lkp.Msi.Coherence.Whole.{start-run}
use lkp.Msi.Server.{handle}
use lkp.Prelude.Int.{negsuc, pos}
use lkp.Msi.Coherence.Directory.{directory_run}
use lkp.Msi.Client.{request, receive, write_page, read_page, region_string}
use lkp.Msi.Data.{select_page, shared, modified, invalid, Machine}
use lkp.Msi.Memory.{memcpy, string_at, has_nul}
use lkp.Msi.Coherence.Defs.{
  Sized, both_shared, nobody, Coherent, peer_modified, IsMessage, PageIs, Ends,
}
use lkp.Msi.Start.{start_second, fresh_info, booted, clear_from, first_message, start_first}
use lkp.Prelude.{
  true, length, ◌-◌, ◌++◌, ◌*◌, ◌≡◌, ◌↔◌, ◌<◌, arith, List, ℕ, [], ◌∷◌, refl, none, some,
}
use lkp.Msi.System.{
  write_one, write_single, write_command, text, done, Command, read_command, menu, read_one, Side,
  Line, run, Outcome, first, second, read, write,
}
use lkp.Msi.Coherence.Session.{run-Coherent}
use lkp.Msi.Coherence.Start.{booted-Coherent, start-overflow}
use lkp.Msi.Coherence.Texts.{read_one-prints, read_one-forgets}
use lkp.Msi.Coherence.Races.{crossed_reads, crossed_writes}
use lkp.Msi.Race.{Step, IsDeadlock, quiet, Reach, Half}

abbrev zeros : ℕ → ℕ
zeros _ = 0

-- Two pages of eight bytes.
abbrev one : Machine
one = booted 1 2 8 zeros true (fresh_info 2) (λ _. invalid)

abbrev two : Machine
two = booted 2 2 8 zeros true (first_message 2 4096 (fresh_info 7)) (λ _. invalid)

abbrev hi : List ℕ
hi = b'h' ∷ b'i' ∷ []

hi-IsMessage : IsMessage 8 hi
hi-IsMessage = omega arith

abbrev sharing : Machine → Machine
sharing x = record x { list_msi = λ _. shared }

abbrev owning : Machine → Machine
owning x = record x { list_msi = λ _. modified; mem = memcpy zeros 8 hi }

two-Sized : Sized 2 8 one two
unfolding first_message
two-Sized = ground arith

shared-Sized : Sized 2 8 (sharing one) (sharing two)
unfolding first_message
shared-Sized = ground arith

owned-Sized : Sized 2 8 one (owning two)
unfolding first_message
owned-Sized = ground arith

nobody-PageIs : PageIs nobody one two 1
unfolding clear_from
nobody-PageIs = record {
  self_has = refl;
  peer_has = refl;
  exclusive = tt;
  self_ends = refl;
  peer_ends = refl;
}

shared-PageIs : PageIs both_shared (sharing one) (sharing two) 1
shared-PageIs = record {
  self_has = refl;
  peer_has = refl;
  exclusive = tt;
  self_ends = refl;
  peer_ends = refl;
}

owned-PageIs : PageIs peer_modified one (owning two) 1
unfolding clear_from first_message
owned-PageIs = record {
  self_has = refl;
  peer_has = refl;
  exclusive = (refl, refl, omega arith);
  self_ends = refl;
  peer_ends = refl;
}

owned-text : region_string (owning two) (1 * 8) ≡ hi
unfolding string_at first_message
owned-text = refl

abbrev session : List (Side × Command)
session = (first, write (pos 1) hi) ∷ (second, read (pos 1)) ∷ (second, read (negsuc 0)) ∷ []

-- The first machine prints what it has written. The second prints that too, and then nothing for either page.
abbrev lines : Outcome → List Line
lines (done a b out) = out
lines _ = []

session_prints :
    lines (run session one two) ≡ text hi ∷ text hi ∷ text (0x20 ∷ b'i' ∷ []) ∷ text [] ∷ []
unfolding run menu read_command write_command read_one write_one read_page write_page handle
    clear_from first_message receive request string_at has_nul write_single
session_prints = refl

run-Coherent_example :
    Ends (λ a b _. Coherent 2 8 (directory_run 2 session (λ _. nobody)) a b) (run session one two)
run-Coherent_example = run-Coherent session (omega arith) (
    booted-Coherent 2 8 zeros zeros true 4096 (fresh_info 7) (λ _. invalid) (omega arith)
      (omega arith) refl refl refl (λ _ _. refl))

start-run_example :
    (a b : Machine) × (start_first 2 8 zeros true ≡ some a)
    × (start_second (first_message 2 4096 (fresh_info 7)) 8 zeros true ≡ some b)
    × Coherent 2 8 (λ _. nobody) a b
    × Ends (λ a' b' _. Coherent 2 8 (directory_run 2 session (λ _. nobody)) a' b') (run session a b)
start-run_example =
    start-run 2 8 zeros zeros true 4096 (fresh_info 7) session (omega arith) (omega arith) refl refl
      refl (omega arith)

start-overflow_example :
    ((start_first 4097 8 zeros true ≡ none) ↔ (4096 < 4097))
    × ((start_second (first_message 4097 4096 (fresh_info 7)) 8 zeros true ≡ none) ↔ (4096 < 4097))
start-overflow_example = start-overflow 4097 8 zeros true 4096 (fresh_info 7)

read_one-prints_example :
    Ends
      (λ _ _ out. out ≡ text (hi ++ string_at (8 - length hi) zeros (length hi)) ∷ [])
      (read_one 1 one (owning two))
read_one-prints_example =
    read_one-prints owned-Sized 1 (omega arith) hi owned-PageIs owned-text (omega arith)
      (omega arith)

read_one-forgets_example :
    Ends
      (λ a b _. read_one 1 a b ≡ done (select_page 1 a) b (text [] ∷ []))
      (read_one 1 one (owning two))
read_one-forgets_example =
    read_one-forgets owned-Sized 1 (omega arith) peer_modified owned-PageIs refl

write-read_one_example :
    Ends
      (λ a b _.
        Ends
          (λ _ _ out. out ≡ text (hi ++ string_at (8 - length hi) zeros (length hi)) ∷ [])
          (read_one 1 b a))
      (write_one 1 hi (sharing one) (sharing two))
write-read_one_example =
    write-read_one shared-Sized 1 (omega arith) both_shared shared-PageIs hi hi-IsMessage
      (omega arith) refl

crossed_reads_example :
    (x y : Half) × Reach (quiet one) (quiet two) x y
    × IsDeadlock x y
    × ((x' y' : Half) → ¬ Step x y x' y')
crossed_reads_example = crossed_reads two-Sized 1 (omega arith) nobody-PageIs

crossed_writes_example :
    (x y : Half) × Reach (quiet (sharing one)) (quiet (sharing two)) x y
    × (x.inbox ≡ [])
    × (y.inbox ≡ [])
    × PageIs nobody x.machine y.machine 1
crossed_writes_example =
    crossed_writes shared-Sized 1 (omega arith) hi hi (omega arith) (omega arith) shared-PageIs
