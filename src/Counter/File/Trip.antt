-- ===== src/Counter/File/Trip.antt =====
-- What a reader and a writer see of a counter of Project_4/part2/s2fs.c.
use mathlib.Core.Path.{subst}
use lkp.Counter.Digits.{strtol-show_int, IsStrtol}
use lkp.Counter.Pieces.{tmp_size, read_text-piece}
use lkp.Prelude.Pieces.{cat-drop, cat, piece}
use lkp.Prelude.Int.{neg_part, pos_part, pos}
use lkp.Msi.Data.{update}
use lkp.Proc.Text.{show-length-le, show_int}
use lkp.Prelude.{
  false, leb, ◌∙◌, refl, ◌-◌, ap, zero, suc, ◌+◌, drop, take, [], ◌∷◌, ◌≡◌, length-append, List,
  arith, true, ◌≤◌, ltb, some, none, length, ◌^◌, Option, ◌<◌, ℕ,
}
use lkp.Counter.File.{
  cut_to_int, s2fs_write_file, dec, at_offset, signed, inc, Kernel, counter_text, add_or_put,
  s2fs_open, s2fs_get_inode, Filp, s2fs_read_file, s2fs_create_file, Created,
}

-- A new file on the inode of the entry that s2fs_create_file made.
abbrev pub opened : Created → (ℕ → ℕ) → Option Filp
opened c counters = elim c.dentry [
  | none ↦ none
  | some (name, inode) ↦ some (s2fs_open inode counters)
]

-- The file on the counter at `a`, at the offset `o`.
abbrev pub filp_at : ℕ → (ℕ → ℕ) → ℕ → Filp
filp_at a counters o = record { private_data = some a; offset = o; counters = counters }

opened-filp_at :
    (k : Kernel) (name : List ℕ) (a : ℕ) (counters : ℕ → ℕ) (f : Filp)
    → opened (s2fs_create_file k name a) counters ≡ some f
    → f ≡ filp_at a counters 0
unfolding s2fs_create_file s2fs_get_inode s2fs_open add_or_put
opened-filp_at k name a counters f h = ground (arith, h)

length-counter_text : (v : ℕ) → v < 2 ^ 32 → length (counter_text v) ≤ 12
unfolding show_int
length-counter_text v h =
    let text = length-append (show_int (signed v)) (0x0a ∷ []) in
    let at_most = show-length-le 9 v (omega arith) in
    let below = show-length-le 9 (2 ^ 32 - 1 - v + 1) (omega arith) in
    ground (arith, text, at_most, below)

counter_text-pos : (v : ℕ) → 0 < length (counter_text v)
counter_text-pos v = omega (arith, length-append (show_int (signed v)) (0x0a ∷ []))

-- The file during a pass over its text: the first read has added one to the counter.
abbrev during : ℕ → (ℕ → ℕ) → ℕ → Filp
during a counters zero = filp_at a counters 0
during a counters (suc o) = filp_at a (update counters a (inc (counters a))) (suc o)

during-pos :
    (a : ℕ) (counters : ℕ → ℕ) (o : ℕ)
    → 0 < o
    → during a counters o ≡ filp_at a (update counters a (inc (counters a))) o
during-pos a counters zero h = absurd (omega arith)
during-pos a counters (suc o) h = refl

read-during :
    (a count : ℕ) (counters : ℕ → ℕ) (o : ℕ)
    → counters a < 2 ^ 32
    → 0 < count
    → o ≤ length (counter_text (counters a))
    → s2fs_read_file true count (during a counters o)
      ≡ some (record {
        result = pos (piece count o (counter_text (counters a)));
        bytes =
            take (piece count o (counter_text (counters a))) (drop o (counter_text (counters a)));
        next = during a counters (o + piece count o (counter_text (counters a)));
      })
unfolding s2fs_read_file
read-during a count counters zero fits some_bytes h =
    let text = counter_text (counters a) in
    let more : 0 < 0 + piece count 0 text = ground (arith, counter_text-pos (counters a)) in
    rw (during-pos a counters (0 + piece count 0 text) more) (
      ap (at_offset (filp_at a counters 0) (update counters a (inc (counters a))))
        (read_text-piece text count 0 (omega (arith, length-counter_text (counters a) fits)) h))
read-during a count counters (suc o) fits some_bytes h =
    let text = counter_text (counters a) in
    let same : dec (update counters a (inc (counters a)) a) ≡ counters a = ground arith in
    let first : ltb 0 (suc o) ≡ true = ground arith in
    rw (during-pos a counters (suc o + piece count (suc o) text) (omega arith), first, same)
      (ap (at_offset (during a counters (suc o)) (update counters a (inc (counters a)))) (
        read_text-piece text count (suc o) (omega (arith, length-counter_text (counters a) fits))
          h))

cat-filp_at :
    (a count v : ℕ) (counters : ℕ → ℕ)
    → counters a ≡ v
    → v < 2 ^ 32
    → 0 < count
    → cat (length (counter_text v) + 1) (s2fs_read_file true count) (filp_at a counters 0)
      ≡ some (counter_text v, filp_at a (update counters a (inc v)) (length (counter_text v)))
cat-filp_at a count v counters e fits some_bytes =
    subst
      (λ w.
        cat (length (counter_text w) + 1) (s2fs_read_file true count) (filp_at a counters 0)
        ≡ some (counter_text w, filp_at a (update counters a (inc w)) (length (counter_text w))))
      e
      (let text = counter_text (counters a) in
        cat-drop (s2fs_read_file true count) (during a counters) text count some_bytes
          (λ o. read-during a count counters o (omega (arith, e)) some_bytes) (length text + 1) 0
          (omega arith) (omega arith)
        ∙ ap (λ x. some (text, x))
            (during-pos a counters (length text) (counter_text-pos (counters a))))

cut_to_int-signed : (v : ℕ) → v < 2 ^ 32 → cut_to_int (signed v) ≡ v
cut_to_int-signed v h = ground arith

magnitude-signed : (v : ℕ) → v < 2 ^ 32 → pos_part (signed v) + neg_part (signed v) < 2 ^ 63
magnitude-signed v h = ground arith

-- A file on a counter of 32 bits that s2fs_create_file made, read in pieces of any size until the end,
-- gives the counter's value in decimal and a line feed, and the counter is then one more, with its
-- wrap-around, however many reads there were; no other counter has changed.
pub cat-counter_text :
    (k : Kernel) (name : List ℕ) (a count : ℕ) (counters : ℕ → ℕ) (f : Filp)
    → opened (s2fs_create_file k name a) counters ≡ some f
    → counters a < 2 ^ 32
    → 0 < count
    → cat (length (counter_text (counters a)) + 1) (s2fs_read_file true count) f
      ≡ some (
        counter_text (counters a),
        filp_at a (update counters a (inc (counters a))) (length (counter_text (counters a))),
      )
cat-counter_text k name a count counters f h fits some_bytes =
    rw (opened-filp_at k name a counters f h)
      (cat-filp_at a count (counters a) counters refl fits some_bytes)

-- Where simple_strtol reads numbers as documented, the text of any int, written to a file that
-- s2fs_create_file made and that is newly opened, is accepted as a whole and read back as the same
-- text in pieces of any size; the counter is then one more than that int, with its wrap-around.
pub write-cat :
    (k : Kernel) (name : List ℕ) (a count v : ℕ) (counters : ℕ → ℕ) (f : Filp)
    → IsStrtol k.simple_strtol
    → opened (s2fs_create_file k name a) counters ≡ some f
    → v < 2 ^ 32
    → 0 < count
    → let written = filp_at a (update counters a v) 0 in
      (s2fs_write_file k true (counter_text v) f
        ≡ some (record { result = pos (length (counter_text v)); bytes = []; next = written }))
      × (cat (length (counter_text v) + 1) (s2fs_read_file true count) written
          ≡ some (
            counter_text v,
            filp_at a (update (update counters a v) a (inc v)) (length (counter_text v)),
          ))
unfolding s2fs_write_file
write-cat k name a count v counters f law h fits some_bytes =
    let read_back : k.simple_strtol (counter_text v) ≡ signed v =
      strtol-show_int k.simple_strtol (signed v) (0x0a ∷ []) law (magnitude-signed v fits)
        (λ d. ground (arith, d)) in
    let short : leb tmp_size (length (counter_text v)) ≡ false =
      ground (arith, length-counter_text v fits) in
    rw (opened-filp_at k name a counters f h, short, read_back, cut_to_int-signed v fits)
      (refl, cat-filp_at a count v (update counters a v) (ground arith) fits some_bytes)
