-- ===== src/Msi/Coherence/Directory.antt =====
-- What the commands of Project_3_new/part4/part4.c do to the abstract directory.
use lkp.Prelude.{[], ◌∷◌}
use lkp.Msi.Data.{update}
use lkp.Msi.Coherence.Defs.{after_write, IsMessage, after_read, swap, Directory, Owners}
use lkp.Msi.System.{Side, Command, first, second, read, write, view}
use lkp.Prelude.{◌+◌, ltb, ◌&&◌, ◌<◌, leb, if◌then◌else◌, List, ℕ, zero, suc}
use lkp.Prelude.Int.{ℤ, pos, negsuc}

-- The directory after `f` at the pages from `c` to `c + m - 1`.
abbrev pub each : (Owners → Owners) → ℕ → ℕ → Directory → Directory
each f m c d q = if leb c q && ltb q (c + m) then f (d q) else d q

-- The answer to "For which page?" that the program offers: a mapped page, or -1.
abbrev pub IsPage : ℕ → ℤ → Type 0
IsPage n (pos p) = p < n
IsPage n (negsuc zero) = Unit {0}
IsPage n (negsuc (suc k)) = ⊥

abbrev pub IsCommand : ℕ → ℕ → Command → Type 0
IsCommand n s (read z) = IsPage n z
IsCommand n s (write z message) = IsPage n z × IsMessage s message
IsCommand n s (view z) = Unit {0}

-- What a command does to the directory, seen from the machine that runs it.
abbrev pub at_page : ℕ → (Owners → Owners) → ℤ → Directory → Directory
at_page n f (pos p) d = update d p (f (d p))
at_page n f (negsuc k) d = each f n 0 d

abbrev pub directory_after : ℕ → Command → Directory → Directory
directory_after n (read z) d = at_page n after_read z d
directory_after n (write z message) d = at_page n after_write z d
directory_after n (view z) d = d

-- The same pages, seen from the other machine.
abbrev pub turned : Directory → Directory
turned d p = swap (d p)

-- The directory after a session, seen from the first machine.
unfoldable pub directory_run : ℕ → List (Side × Command) → Directory → Directory
directory_run n [] d = d
directory_run n ((first, c) ∷ cs) d = directory_run n cs (directory_after n c d)
directory_run n ((second, c) ∷ cs) d = directory_run n cs (turned (directory_after n c (turned d)))

abbrev pub IsSession : ℕ → ℕ → List (Side × Command) → Type 0
IsSession n s [] = Unit {0}
IsSession n s ((side, c) ∷ cs) = IsCommand n s c × IsSession n s cs
