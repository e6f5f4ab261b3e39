-- ===== src/Prelude/Pieces.antt =====
-- A file that is read in pieces, until a read returns 0.
use mathlib.Core.Path.{subst}
use lkp.Prelude.Int.{negsuc, pos, ℤ}
use lkp.Prelude.{
  refl, take-append-drop, ◌∙◌, drop-drop, ap, sym, length-drop, take-append_front,
  drop-append_front, ◌∷◌, take-all, drop-all, drop, ◌-◌, take, ◌++◌, arith, zero, ◌≡◌, ◌+◌, suc, [],
  ltb, ◌<◌, if◌then◌else◌, none, ◌≤◌, some, length, List, Option, ℕ,
}

-- Of a read: its return value, the bytes in the user's buffer, and the state after it.
pub record ReadReply (S : Type 0) : Type 0 where
  pub result : ℤ
  pub bytes : List ℕ
  pub next : S

-- The bytes that a read of `count` bytes at `offset` returns.
abbrev pub piece : ℕ → ℕ → List ℕ → ℕ
piece count offset text = if ltb (length text - offset) count then length text - offset else count

pub piece-fits :
    (count offset : ℕ) (text : List ℕ)
    → offset ≤ length text
    → offset + piece count offset text ≤ length text
piece-fits count offset text h = ground arith

-- The bytes of a piece are those of the text, behind which snprintf has put a NUL, where the text fits
-- `size`.
pub bytes-piece :
    (size : ℕ) (text : List ℕ) (count offset : ℕ)
    → length text ≤ size
    → offset ≤ length text
    → take (piece count offset text) (drop offset (take size text ++ 0 ∷ []))
      ≡ take (piece count offset text) (drop offset text)
bytes-piece size text count offset h k =
    rw (take-all size text h, drop-append_front offset text (0 ∷ []) k)
      (take-append_front (piece count offset text) (drop offset text) (0 ∷ [])
        (ground (arith, length-drop offset text)))

module _ {S : Type 0} where
  -- The bytes of all reads until one returns 0, with the state then; `none`: a fault, an error, or no
  -- end in time.
  gather : ℤ → List ℕ → S → Option (List ℕ × S) → Option (List ℕ × S)
  gather (pos zero) bytes s rest = some ([], s)
  gather (pos (suc n)) bytes s none = none
  gather (pos (suc n)) bytes s (some (more, t)) = some (bytes ++ more, t)
  gather (negsuc n) bytes s rest = none

  after_read : Option (ReadReply S) → (S → Option (List ℕ × S)) → Option (List ℕ × S)
  unfolding gather
  after_read none rest = none
  after_read (some r) rest = gather r.result r.bytes r.next (rest r.next)

  -- A program that reads until the end, at most `fuel` times.
  unfoldable pub cat : ℕ → (S → Option (ReadReply S)) → S → Option (List ℕ × S)
  unfolding after_read
  cat zero read s = none
  cat (suc fuel) read s = after_read (read s) (cat fuel read)

  -- Where the state is that of an offset, and each read in the text gives its piece and the state of the
  -- next offset, `cat` gives the rest of the text and the state of its end.
  module _ (read : S → Option (ReadReply S)) (at : ℕ → S) (text : List ℕ) (count : ℕ)
      (some_bytes : 0 < count)
      (reads : (o : ℕ)
        → o ≤ length text
        → read (at o)
          ≡ some (record {
            result = pos (piece count o text);
            bytes = take (piece count o text) (drop o text);
            next = at (o + piece count o text);
          })) where
    pub cat-drop :
        (fuel o : ℕ)
        → o ≤ length text
        → length text < o + fuel
        → cat fuel read (at o) ≡ some (drop o text, at (length text))
    unfolding cat
    cat-drop zero o h enough = absurd (omega arith)
    cat-drop (suc fuel) o h enough =
        ap (λ r. after_read r (cat fuel read)) (reads o h)
        ∙ next (piece count o text) refl (cat-drop fuel)
      where
        next :
            (n : ℕ)
            → piece count o text ≡ n
            → ((p : ℕ)
                → p ≤ length text
                → length text < p + fuel
                → cat fuel read (at p) ≡ some (drop p text, at (length text)))
            → gather (pos n) (take n (drop o text)) (at (o + n)) (cat fuel read (at (o + n)))
              ≡ some (drop o text, at (length text))
        next zero e rest =
            let ends : o + 0 ≡ length text = ground arith in
            let rest_empty = sym (drop-all o text (ground arith)) in
            λ i. some (rest_empty i, at (ends i))
        next (suc n) e rest =
            rw
              (rest (o + suc n) (subst (λ m. o + m ≤ length text) e (piece-fits count o text h))
                (omega arith))
              (ap (λ t. some (t, at (length text)))
                (ap (◌++◌ (take (suc n) (drop o text))) (sym (drop-drop (suc n) o text))
                  ∙ take-append-drop (suc n) (drop o text)))
