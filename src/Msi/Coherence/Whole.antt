-- ===== src/Msi/Coherence/Whole.antt =====
-- The two machines of Project_3_new/part4/part4.c from their handshake on.
use lkp.Msi.Coherence.Directory.{directory_run, IsSession}
use lkp.Msi.Coherence.Start.{start-Coherent}
use lkp.Msi.Coherence.Session.{run-Coherent}
use lkp.Msi.Coherence.Defs.{nobody, Coherent, Ends}
use lkp.Msi.Start.{first_message, start_first, start_second}
use lkp.Msi.System.{Side, Command, run}
use lkp.Msi.Data.{Machine, ProcInfo, max_size}
use lkp.Prelude.{Bool, true, ℕ, ◌-◌, List, ◌≡◌, ◌≤◌, ◌<◌, some}

-- For a page count of at most MAX_SIZE and pages of two bytes at least, whatever the first message
-- held before its fields were set, the handshake starts both machines with all pages invalid. Where
-- malloc gave both recv_message a NUL as its last byte, and each read of a proc_info takes the
-- whole struct, every session of valid commands, whose texts are shorter than a page, typed at
-- either machine, then ends without a fault, a blocked read or an unread reply, and every page is
-- on both machines as the directory says that has followed the commands from there.
pub start-run :
    (n s : ℕ) (buffer buffer' : ℕ → ℕ) (whole : Bool) (base : ℕ) (garbage : ProcInfo)
    (cs : List (Side × Command))
    → n ≤ max_size
    → 1 < s
    → buffer (s - 1) ≡ 0
    → buffer' (s - 1) ≡ 0
    → whole ≡ true
    → IsSession n s cs
    → (a b : Machine) × (start_first n s buffer whole ≡ some a)
      × (start_second (first_message n base garbage) s buffer' whole ≡ some b)
      × Coherent n s (λ _. nobody) a b
      × Ends (λ a' b' _. Coherent n s (directory_run n cs (λ _. nobody)) a' b') (run cs a b)
start-run n s buffer buffer' whole base garbage cs h k e0 e1 w valid =
    let (a, b, e, f, c) = start-Coherent n s buffer buffer' whole base garbage h k e0 e1 w in
    (a, b, e, f, c, run-Coherent cs valid c)
