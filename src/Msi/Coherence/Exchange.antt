-- ===== src/Msi/Coherence/Exchange.antt =====
-- A text of Project_3_new/part4/part4.c from one machine to the other: a write and then a read of the peer.
use mathlib.Core.Path.{subst}
use lkp.Msi.Client.{signal_write, region_string}
use lkp.Msi.Coherence.Writes.{write_one_lem, writer, invalidated, write-here, write-Sized}
use lkp.Msi.Coherence.Texts.{read_one-prints, stored}
use lkp.Msi.Memory.Strings.{string_at-nul}
use lkp.Msi.Memory.{memcpy, string_at, IsText}
use lkp.Msi.System.{text, read_one, write_one}
use lkp.Msi.Coherence.Defs.{
  self_modified, both_shared, nobody, peer_modified, Ends, self_flags, Owners, PageIs, Sized,
  IsMessage,
}
use lkp.Msi.Data.{Machine}
use lkp.Prelude.{
  ap, ◌∙◌, arith, ◌+◌, ◌-◌, ◌*◌, ◌++◌, ◌≡◌, ◌<◌, length, List, ℕ, [], ◌∷◌, refl, append-nil,
}

Sized-swap : {n s : ℕ} {a b : Machine} → Sized n s a b → Sized n s b a
Sized-swap z = ground (arith, z)

PageIs-swap : {a b : Machine} {p : ℕ} → PageIs self_modified a b p → PageIs peer_modified b a p
PageIs-swap k = record {
  self_has = k.peer_has;
  peer_has = k.self_has;
  exclusive = (k.exclusive.1, k.exclusive.0, k.exclusive.2);
  self_ends = k.peer_ends;
  peer_ends = k.self_ends;
}

invalidated-buffer :
    (p : ℕ) (o : Owners) (a b : Machine) → (invalidated p o a b).recv_message ≡ b.recv_message
invalidated-buffer p nobody a b = refl
invalidated-buffer p self_modified a b = refl
invalidated-buffer p both_shared a b = refl
invalidated-buffer p peer_modified a b = refl

module _ {n s : ℕ} {a b : Machine} (z : Sized n s a b) (p : ℕ) (h : p < n) where
  -- What stored says, where the text ends at a zero.
  alone :
      (message : List ℕ)
      → IsText message
      → length message < s
      → a.mem (p * s + length message) ≡ 0
      → string_at (a.mapped * a.page_size - p * s) (memcpy a.mem (p * a.page_size) message) (p * s)
        ≡ message
  alone message t fits nul =
      stored z p h message t fits
      ∙ ap (◌++◌ message) (string_at-nul _ a.mem (p * s + length message) nul)
      ∙ append-nil message

  writer-text :
      (o : Owners) (message : List ℕ)
      → IsText message
      → length message < s
      → a.mem (p * s + length message) ≡ 0
      → region_string (writer p message (self_flags o) a) (p * s) ≡ message
  unfolding signal_write
  writer-text nobody message t fits nul = alone message t fits nul
  writer-text o message t fits nul = alone message t fits nul

  -- Whoever has the page, a text shorter than a page is written on one machine, where a zero stands
  -- behind the place of the text. The other machine then reads the page: the read ends and prints
  -- the text, followed by what an earlier reply has left in its buffer behind that length. The last
  -- bytes of the pages and of the buffers are NUL, and a read of a proc_info takes the whole
  -- struct.
  pub write-read_one :
      (o : Owners)
      → PageIs o a b p
      → (message : List ℕ) → IsMessage s message
      → IsText message
      → a.mem (p * s + length message) ≡ 0
      → Ends
          (λ a' b' _.
            Ends
              (λ _ _ out.
                out
                ≡ text (message ++ string_at (s - length message) b.recv_message (length message))
                  ∷ [])
              (read_one p b' a'))
          (write_one p message a b)
  write-read_one o k message m t nul =
      let a' = writer p message (self_flags o) a in
      let b' = invalidated p o a' b in
      rw (write_one_lem z p h message m.fits o k) (
        subst
          (λ mem.
            Ends
              (λ _ _ out.
                out ≡ text (message ++ string_at (s - length message) mem (length message)) ∷ [])
              (read_one p b' a'))
          (invalidated-buffer p o a' b)
          (read_one-prints (Sized-swap (write-Sized z p h message m.fits o)) p h message
            (PageIs-swap (write-here z p h message m.fits o m.some_text m.first_byte k))
            (writer-text o message t m.fits nul) t m.fits))
