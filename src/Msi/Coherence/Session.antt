-- ===== src/Msi/Coherence/Session.antt =====
-- Loops over all pages, whole commands and whole sessions against the directory.
use lkp.Prelude.{sym, [], ◌∷◌}
use lkp.Msi.Coherence.Directory.{directory_after, IsSession, turned, IsCommand, each, directory_run}
use lkp.Msi.System.{first, second, read, write, view}
use lkp.Prelude.Int.{negsuc, pos, ℤ}
use lkp.Msi.Coherence.Menu.{write_one-Coherent, write_single-Coherent, read_one-Coherent}
use mathlib.Core.Path.{subst, fun_ext}
use lkp.Msi.System.{
  view, write, scan_page, read, menu, run, Side, Command, flip, fault, write_one, stray, read_one,
  blocked, done, and_then, read_from, write_from, Outcome,
}
use lkp.Msi.Data.{update, Machine}
use lkp.Msi.Coherence.Defs.{
  nobody, swap, PageIs, self_modified, after_write, after_read, Coherent, IsMessage, Ends,
  Directory, Owners,
}
use lkp.Prelude.{zero, arith, suc, ◌≤◌, ◌+◌, ◌≡◌, List, ℕ}

each-suc :
    (f : Owners → Owners) (m c : ℕ) (d : Directory)
    → each f m (c + 1) (update d c (f (d c))) ≡ each f (suc m) c d
each-suc f m c d = fun_ext λ q. ground arith

each-zero : (f : Owners → Owners) (c : ℕ) (d : Directory) → each f 0 c d ≡ d
each-zero f c d = fun_ext λ q. ground arith

-- The rest of a loop ends if it ends from where its first round does.
Ends-and_then :
    (P Q : Machine → Machine → Type 0) (o : Outcome) (k : Machine → Machine → Outcome)
    → Ends (λ a b _. P a b) o
    → ((a b : Machine) → P a b → Ends (λ a' b' _. Q a' b') (k a b))
    → Ends (λ a b _. Q a b) (and_then o k)
Ends-and_then P Q (done a b out) k h rest = appended (k a b) (rest a b h)
  where
    appended :
        (o : Outcome)
        → Ends (λ a' b' _. Q a' b') o
        → Ends (λ a' b' _. Q a' b') (and_then (done a b out) (λ _ _. o))
    appended (done a' b' out') h' = h'
    appended (blocked a' b') h' = elim h' [ ]
    appended (stray a' b') h' = elim h' [ ]
    appended fault h' = elim h' [ ]
Ends-and_then P Q (blocked a b) k h rest = elim h [ ]
Ends-and_then P Q (stray a b) k h rest = elim h [ ]
Ends-and_then P Q fault k h rest = elim h [ ]

Ends-flip :
    (P Q : Machine → Machine → Type 0)
    → ((a b : Machine) → P a b → Q b a)
    → (o : Outcome) → Ends (λ a b _. P a b) o
    → Ends (λ a b _. Q a b) (flip o)
Ends-flip P Q f (done a b out) h = f a b h
Ends-flip P Q f (blocked a b) h = elim h [ ]
Ends-flip P Q f (stray a b) h = elim h [ ]
Ends-flip P Q f fault h = elim h [ ]

module _ {n s : ℕ} where
  read_from-Coherent :
      (m c : ℕ) {d : Directory} {a b : Machine}
      → c + m ≤ n
      → Coherent n s d a b
      → Ends (λ a' b' _. Coherent n s (each after_read m c d) a' b') (read_from m c a b)
  unfolding read_from
  read_from-Coherent zero c {d} h k = rw (each-zero after_read c d) k
  read_from-Coherent (suc m) c {d} {a} {b} h k =
      Ends-and_then (Coherent n s (update d c (after_read (d c))))
        (Coherent n s (each after_read (suc m) c d)) (read_one c a b) (read_from m (c + 1))
        (read_one-Coherent k c (omega arith))
        λ a' b' k'. rw (← each-suc after_read m c d) (read_from-Coherent m (c + 1) (omega arith) k')

  write_from-Coherent :
      (message : List ℕ)
      → IsMessage s message
      → (m c : ℕ) {d : Directory} {a b : Machine} → c + m ≤ n
      → Coherent n s d a b
      → Ends (λ a' b' _. Coherent n s (each after_write m c d) a' b') (write_from m c message a b)
  unfolding write_from
  write_from-Coherent message t zero c {d} h k = rw (each-zero after_write c d) k
  write_from-Coherent message t (suc m) c {d} {a} {b} h k =
      Ends-and_then (Coherent n s (update d c self_modified))
        (Coherent n s (each after_write (suc m) c d)) (write_one c message a b)
        (write_from m (c + 1) message) (write_one-Coherent k c (omega arith) message t)
        λ a' b' k'.
          rw (← each-suc after_write m c d)
            (write_from-Coherent message t m (c + 1) (omega arith) k')

  Coherent-scan :
      (z : ℤ) {d : Directory} {a b : Machine}
      → Coherent n s d a b
      → Coherent n s d (scan_page z a) b
  Coherent-scan z {d} c = record {
    sized = ground (arith, c.sized);
    pages = λ p h. scanned (d p) p (c.pages p h);
  }
    where
      scanned : (o : Owners) (p : ℕ) {a b : Machine} → PageIs o a b p → PageIs o (scan_page z a) b p
      scanned nobody p k = ground arith
      scanned o p k = ground arith

  menu-Coherent :
      (c : Command) {d : Directory} {a b : Machine}
      → IsCommand n s c
      → Coherent n s d a b
      → Ends (λ a' b' _. Coherent n s (directory_after n c d) a' b') (menu c a b)
  unfolding menu
  menu-Coherent (read (pos p)) h k = read_one-Coherent k p h
  menu-Coherent (read (negsuc zero)) {d} {a} {b} h k =
      subst
        (λ m.
          Ends (λ a' b' _. Coherent n s (each after_read n 0 d) a' b')
            (read_from m 0 (scan_page (negsuc 0) a) b))
        (sym k.sized.self_count) (read_from-Coherent n 0 (omega arith) (Coherent-scan (negsuc 0) k))
  menu-Coherent (read (negsuc (suc j))) h k = elim h [ ]
  menu-Coherent (write (pos p) message) h k = write_single-Coherent k p h.0 message h.1
  menu-Coherent (write (negsuc zero) message) {d} {a} {b} h k =
      subst
        (λ m.
          Ends (λ a' b' _. Coherent n s (each after_write n 0 d) a' b')
            (write_from m 0 message (scan_page (negsuc 0) a) b))
        (sym k.sized.self_count)
        (write_from-Coherent message h.1 n 0 (omega arith) (Coherent-scan (negsuc 0) k))
  menu-Coherent (write (negsuc (suc j)) message) h k = absurd h.0
  menu-Coherent (view (pos p)) h k = Coherent-scan (pos p) k
  menu-Coherent (view (negsuc zero)) h k = Coherent-scan (negsuc 0) k
  menu-Coherent (view (negsuc (suc j))) h k = Coherent-scan (negsuc (suc j)) k

  Coherent-swap : {d : Directory} {a b : Machine} → Coherent n s d a b → Coherent n s (turned d) b a
  Coherent-swap {d} c = record {
    sized = ground (arith, c.sized);
    pages = λ p h. swapped (d p) p (c.pages p h);
  }
    where
      swapped : (o : Owners) (p : ℕ) {a b : Machine} → PageIs o a b p → PageIs (swap o) b a p
      swapped nobody p k = ground arith
      swapped o p k = ground arith

  -- From machines whose pages are as an abstract directory says, where the last byte of each page
  -- and of recv_message is a NUL and each read of a proc_info takes the whole struct, every session
  -- of valid commands, whose texts are shorter than a page, typed at either machine, ends without a
  -- fault, a blocked read or an unread reply. It ends in the state that the directory predicts,
  -- where a page modified on one machine is invalid on the other.
  pub run-Coherent :
      (cs : List (Side × Command)) {d : Directory} {a b : Machine}
      → IsSession n s cs
      → Coherent n s d a b
      → Ends (λ a' b' _. Coherent n s (directory_run n cs d) a' b') (run cs a b)
  unfolding run directory_run
  run-Coherent [] v k = k
  run-Coherent ((first, c) ∷ cs) {d} {a} {b} v k =
      Ends-and_then (Coherent n s (directory_after n c d)) _ (menu c a b) (run cs)
        (menu-Coherent c v.0 k) (λ a' b' k'. run-Coherent cs v.1 k')
  run-Coherent ((second, c) ∷ cs) {d} {a} {b} v k =
      Ends-and_then (Coherent n s (turned (directory_after n c (turned d)))) _ (flip (menu c b a))
        (run cs)
        (Ends-flip (Coherent n s (directory_after n c (turned d))) _ (λ _ _. Coherent-swap)
          (menu c b a) (menu-Coherent c v.0 (Coherent-swap k)))
        (λ a' b' k'. run-Coherent cs v.1 k')
