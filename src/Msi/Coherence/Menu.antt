-- ===== src/Msi/Coherence/Menu.antt =====
-- Every command of `menu` in Project_3_new/part4/part4.c ends, and moves the directory as specified.
use lkp.Msi.Coherence.Writes.{
  write-elsewhere, write-here, write-Sized, invalidated, writer, write_one_lem, write_single_lem,
}
use lkp.Msi.System.{write_one, write_single, read_one}
use lkp.Msi.Coherence.Rounds.{
  read_one-local, read_one-peer, fetch-elsewhere, fetch-here, read_one-nobody, fetch-Sized, answers,
  asks, local-elsewhere, text-short,
}
use mathlib.Core.Path.{subst}
use lkp.Msi.Client.{region_string, request, receive}
use lkp.Msi.Data.{select_page, update, Machine}
use lkp.Prelude.{
  ◌*◌, [], ◌∷◌, inr, get_or, ==_iff, ◌≡◌, inl, arith, length, List, ◌==◌, Bool-cases, ◌<◌, ◌≢◌, ℕ,
}
use lkp.Msi.Coherence.Defs.{
  IsMessage, self_flags, peer_modified, nobody, after_read, self_modified, Ends, both_shared,
  PageIs, Owners, Coherent, Directory,
}
use lkp.Prelude.{refl}

-- A statement about a family of values, where one of them is assigned to.
update-all {ℓ κ} :
    {A : Type ℓ} (P : ℕ → A → Type κ) (f : ℕ → A) (p : ℕ) (v : A)
    → P p v
    → ((q : ℕ) → q ≢ p → P q (f q))
    → (q : ℕ) → P q (update f p v q)
update-all P f p v here else q = elim (Bool-cases (p == q)) [
  | inl same ↦ rw same (subst (λ x. P x v) ((==_iff p q).0 same) here)
  | inr other ↦ rw other (else q (λ e. ground arith))
]

-- Assigning a page the state that it has changes nothing.
Coherent-same :
    {n s : ℕ} {d : Directory} {a b : Machine} (p : ℕ) (o : Owners)
    → d p ≡ o
    → Coherent n s d a b
    → Coherent n s (update d p o) a b
Coherent-same {n} {s} {d} {a} {b} p o e c = record {
  sized = c.sized;
  pages =
      update-all (λ q r. q < n → PageIs r a b q) d p o
        (λ lt. subst (λ r. PageIs r a b p) e (c.pages p lt)) (λ q ne lt. c.pages q lt);
}

module _ {n s : ℕ} {d : Directory} {a b : Machine} (c : Coherent n s d a b) (p : ℕ)
    (h : p < n) where
  fetch-Coherent :
      (r : List ℕ)
      → length r < s
      → Coherent n s (update d p both_shared) (receive p r (asks p a)) (answers p a b)
  unfolding receive request
  fetch-Coherent r short = record {
    sized = fetch-Sized c.sized p h r short;
    pages =
        update-all (λ q o. q < n → PageIs o (receive p r (asks p a)) (answers p a b) q) d p
          both_shared (λ lt. fetch-here c.sized p h r (d p) (c.pages p h))
          (λ q ne lt. fetch-elsewhere c.sized p h r (d q) q ne (c.pages q lt));
  }

  local-Coherent : Coherent n s d (select_page p a) b
  local-Coherent = record {
    sized = ground (arith, c.sized);
    pages = λ q lt. local-elsewhere c.sized p h (d q) q (c.pages q lt);
  }

  read_at :
      (o : Owners)
      → PageIs o a b p
      → d p ≡ o
      → Ends (λ a' b' _. Coherent n s (update d p (after_read o)) a' b') (read_one p a b)
  read_at nobody k e =
      rw (read_one-nobody c.sized p h k) (fetch-Coherent (0x20 ∷ []) c.sized.some_bytes)
  read_at peer_modified k e =
      rw (read_one-peer c.sized p h k) (
        fetch-Coherent (region_string b (p * b.page_size)) (text-short c.sized p h peer_modified k))
  read_at both_shared k e =
      rw (read_one-local c.sized p h both_shared k (inl refl))
        (Coherent-same p both_shared e local-Coherent)
  read_at self_modified k e =
      rw (read_one-local c.sized p h self_modified k (inr refl))
        (Coherent-same p self_modified e local-Coherent)

  write_at :
      (message : List ℕ)
      → length message < s
      → 0 < length message
      → 0 < get_or message 0 0
      → (o : Owners) → PageIs o a b p
      → Ends (λ a' b' _. Coherent n s (update d p self_modified) a' b') (write_one p message a b)
        × Ends
            (λ a' b' _. Coherent n s (update d p self_modified) a' b')
            (write_single p message a b)
  write_at message fits some_text first o k = (
    rw (write_one_lem c.sized p h message fits o k) (write-Coherent o k),
    rw (write_single_lem c.sized p h message fits o k) (write-Coherent o k),
  )
    where
      write-Coherent :
          (o : Owners)
          → PageIs o a b p
          → Coherent n s
              (update d p self_modified)
              (writer p message (self_flags o) a)
              (invalidated p o (writer p message (self_flags o) a) b)
      write-Coherent o k = record {
        sized = write-Sized c.sized p h message fits o;
        pages =
            update-all
              (λ q r.
                q < n
                → PageIs r (writer p message (self_flags o) a)
                    (invalidated p o (writer p message (self_flags o) a) b) q)
              d p self_modified (λ lt. write-here c.sized p h message fits o some_text first k)
              (λ q ne lt. write-elsewhere c.sized p h message fits o (d q) q ne (c.pages q lt));
      }

-- Command 'r' at a page ends: a page of the peer is fetched, and no reply is waited for in vain.
pub read_one-Coherent :
    {n s : ℕ} {d : Directory} {a b : Machine}
    → Coherent n s d a b
    → (p : ℕ) → p < n
    → Ends (λ a' b' _. Coherent n s (update d p (after_read (d p))) a' b') (read_one p a b)
read_one-Coherent {d} c p h = read_at c p h (d p) (c.pages p h) refl

pub write_one-Coherent :
    {n s : ℕ} {d : Directory} {a b : Machine}
    → Coherent n s d a b
    → (p : ℕ) → p < n
    → (message : List ℕ) → IsMessage s message
    → Ends (λ a' b' _. Coherent n s (update d p self_modified) a' b') (write_one p message a b)
write_one-Coherent {d} c p h message m =
    (write_at c p h message m.fits m.some_text m.first_byte (d p) (c.pages p h)).0

pub write_single-Coherent :
    {n s : ℕ} {d : Directory} {a b : Machine}
    → Coherent n s d a b
    → (p : ℕ) → p < n
    → (message : List ℕ) → IsMessage s message
    → Ends (λ a' b' _. Coherent n s (update d p self_modified) a' b') (write_single p message a b)
write_single-Coherent {d} c p h message m =
    (write_at c p h message m.fits m.some_text m.first_byte (d p) (c.pages p h)).1
