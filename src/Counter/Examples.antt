-- ===== src/Counter/Examples.antt =====
-- A counter of Project_4/part2/s2fs.c and a mount of Project_4/part3/s2fs.c on concrete kernels.
use lkp.Msi.Data.{update}
use lkp.Proc.Text.{digits, show, show_int}
use lkp.Prelude.Int.{pos, ℤ}
use lkp.Counter.Digits.{value, negate, Ends, AreDigits, IsStrtol}
use lkp.Prelude.{
  inr, inl, none, not, ◌^◌, true, Bool-cases, some, refl, ap, arith, [], ◌-◌, ◌==◌, ◌≡◌, ◌+◌, ◌++◌,
  length, ◌&&◌, if◌then◌else◌, ◌<◌, ◌*◌, leb, ◌∷◌, Bool, List, ℕ,
}
use lkp.Counter.File
use lkp.Counter.Greeting
use lkp.Counter.File.Trip.{opened, filp_at, write-cat}
use lkp.Counter.Greeting.Hello.{files, fill_super-entries, write-faults, Each, succeeding}
use lkp.Prelude.Pieces.{cat}
use lkp.Counter.File.{counter_text}

-- A reader of numbers as simple_strtol is documented.
is_digit : ℕ → Bool
is_digit c = leb b'0' c && leb c b'9'

scan : ℕ → List ℕ → ℕ
unfolding is_digit
scan acc [] = acc
scan acc (c ∷ s) = let rest = scan (acc * 10 + (c - b'0')) s in if is_digit c then rest else acc

strtol : List ℕ → ℤ
unfolding scan
strtol [] = pos 0
strtol (c ∷ s) = if c == b'-' then negate (scan 0 s) else pos (scan 0 (c ∷ s))

scan-value : (s r : List ℕ) (acc : ℕ) → AreDigits s → Ends r → scan acc (s ++ r) ≡ value acc s
unfolding scan is_digit
scan-value [] [] acc h e = refl
scan-value [] (c ∷ r) acc h e = elim (Bool-cases (is_digit c)) [
  | inl t ↦ absurd (e (ground (arith, t)))
  | inr t ↦ rw t refl
]
scan-value (c ∷ s) r acc (d, h) e = ground (arith, d, scan-value s r (acc * 10 + (c - b'0')) h e)

strtol-IsStrtol : IsStrtol strtol
unfolding strtol
strtol-IsStrtol = record {
  plain = λ s r d n b e. plain s r d n e;
  minus = λ s r d n b e. ap negate (scan-value s r 0 d e);
}
  where
    plain : (s r : List ℕ) → AreDigits s → 0 < length s → Ends r → strtol (s ++ r) ≡ pos (value 0 s)
    plain [] r d n e = absurd (omega arith)
    plain (c ∷ s) r (d, h) n e = ground (arith, d, ap pos (scan-value (c ∷ s) r 0 (d, h) e))

abbrev kernel : File.Kernel
kernel = record { d_alloc = true; new_inode = true; d_make_root = true; simple_strtol = strtol }

abbrev counter_name : List ℕ
counter_name = b'c' ∷ []

-- The counter at address 1 is 41, the others are 0.
abbrev counters : ℕ → ℕ
counters a = if a == 1 then 41 else 0

file_on_counter :
    opened (File.s2fs_create_file kernel counter_name 1) counters ≡ some (filp_at 1 counters 0)
unfolding File.s2fs_create_file File.s2fs_get_inode File.add_or_put File.s2fs_open
file_on_counter = refl

-- The int -7 as 32 bits.
abbrev minus_seven : ℕ
minus_seven = 2 ^ 32 - 7

write-cat_example :
    (File.s2fs_write_file kernel true (counter_text minus_seven) (filp_at 1 counters 0)
      ≡ some (record {
        result = pos 3;
        bytes = [];
        next = filp_at 1 (update counters 1 minus_seven) 0;
      }))
    × (cat 4 (File.s2fs_read_file true 2) (filp_at 1 (update counters 1 minus_seven) 0)
        ≡ some (
          counter_text minus_seven,
          filp_at 1 (update (update counters 1 minus_seven) 1 (2 ^ 32 - 6)) 3,
        ))
unfolding show_int show digits
write-cat_example =
    write-cat kernel counter_name 1 2 minus_seven counters (filp_at 1 counters 0) strtol-IsStrtol
      file_on_counter (omega arith) (omega arith)

counter_text_test : counter_text minus_seven ≡ b'-' ∷ b'7' ∷ 0x0a ∷ []
unfolding show_int show digits
counter_text_test = refl

-- The second inode cannot be made.
abbrev no_foo : Greeting.Kernel
no_foo = record {
  d_alloc = λ n. true;
  new_inode = λ n. not (n == 1);
  d_make_root = true;
  simple_strtol = strtol;
}

abbrev serves_all : Greeting.Kernel
serves_all = record {
  d_alloc = λ n. true;
  new_inode = λ n. true;
  d_make_root = true;
  simple_strtol = strtol;
}

fill_super-entries_example :
    ((Greeting.s2fs_fill_super no_foo).0 ≡ pos 0)
    × ((Greeting.s2fs_fill_super no_foo).1.added ≡ [])
    × (length (Greeting.s2fs_fill_super no_foo).1.added
          + (Greeting.s2fs_fill_super no_foo).1.dropped
        ≡ succeeding no_foo.d_alloc (Greeting.s2fs_fill_super no_foo).1.dentries)
fill_super-entries_example = fill_super-entries no_foo

write-faults_example :
    Each
      (λ e.
        Greeting.s2fs_write_file serves_all true (Greeting.s2fs_open e.inode) 0 (b'1' ∷ []) ≡ none)
      (files (Greeting.s2fs_fill_super serves_all).1.added)
write-faults_example = write-faults serves_all (b'1' ∷ []) (omega arith)

-- There is such a file.
files_test : length (files (Greeting.s2fs_fill_super serves_all).1.added) ≡ 1
unfolding Greeting.s2fs_fill_super Greeting.add_root Greeting.s2fs_make_inode
    Greeting.s2fs_create_dir Greeting.create Greeting.add_or_put Greeting.add_bar
    Greeting.s2fs_create_file
files_test = refl
