-- ===== src/Counter/Pieces.antt =====
-- The end of `s2fs_read_file` of Project_4/part2/s2fs.c and of Project_4/part3/s2fs.c.
use lkp.S2fs.File.{efault}
use lkp.Proc.Text.{snprintf}
use lkp.Prelude.Int.{pos}
use lkp.Prelude.Pieces.{bytes-piece, piece, ReadReply}
use lkp.Prelude.{
  ◌∷◌, drop, leb, ◌-◌, take, ◌++◌, arith, ◌≡◌, ◌+◌, true, [], ltb, ◌<◌, if◌then◌else◌, none, ◌≤◌,
  some, length, List, Option, Bool, ℕ,
}

abbrev pub tmp_size : ℕ
tmp_size = 17

-- The read after the text was written into `tmp` by snprintf: `copied` is whether copy_to_user
-- succeeds, and the state is the new offset. `none`: it would copy from behind the end of `tmp`.
unfoldable pub read_text : Bool → ℕ → ℕ → List ℕ → Option (ReadReply ℕ)
read_text copied count offset text =
    let len = length text in
    if ltb len offset
    then some (record { result = pos 0; bytes = []; next = offset })
    else let n = if ltb (len - offset) count then len - offset else count in
      if leb (offset + n) tmp_size
      then (if copied
          then some (record {
            result = pos n;
            bytes = take n (drop offset (snprintf tmp_size text ++ 0 ∷ []));
            next = offset + n;
          })
          else some (record { result = efault; bytes = []; next = offset }))
      else none

pub read_text-piece :
    (text : List ℕ) (count offset : ℕ)
    → length text < tmp_size
    → offset ≤ length text
    → read_text true count offset text
      ≡ some (record {
        result = pos (piece count offset text);
        bytes = take (piece count offset text) (drop offset text);
        next = offset + piece count offset text;
      })
unfolding read_text
read_text-piece text count offset h k =
    rw (bytes-piece 16 text count offset (omega arith) k) (ground arith)
