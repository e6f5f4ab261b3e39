-- ===== src/Msi/Coherence/Texts.antt =====
-- What the commands of Project_3_new/part4/part4.c print and store, beyond the flags.
use lkp.Msi.Coherence.Writes.{write_one_lem}
use lkp.Msi.Coherence.Rounds.{
  page-fits, fetch-here, fetch-Sized, read_one-local, answers, read_one-nobody, text-short,
  read_one-peer, asks,
}
use lkp.Msi.Memory.Strings.{string_at-nul, string_at-memcpy}
use lkp.Msi.System.{text, read_one, done, write_one}
use lkp.Msi.Coherence.Defs.{
  self_modified, both_shared, nobody, Ends, peer_modified, self_flags, Owners, PageIs, Sized,
}
use lkp.Msi.Memory.{memcpy, string_at, IsText}
use lkp.Msi.Data.{select_page, invalid, Machine}
use lkp.Msi.Client.{signal_write, request, region_string, received, receive}
use lkp.Prelude.{
  inl, zero, ap, suc, ◌∙◌, arith, ◌+◌, ◌-◌, ◌*◌, ◌++◌, ◌≡◌, take, ◌≤◌, ◌<◌, length, List, ℕ, [],
  ◌∷◌, refl,
}

take-all : (n : ℕ) (r : List ℕ) → length r ≤ n → take n r ≡ r
take-all zero [] h = refl
take-all zero (c ∷ cs) h = absurd (omega arith)
take-all (suc n) [] h = refl
take-all (suc n) (c ∷ cs) h = ap (◌∷◌ c) (take-all n cs (omega arith))

-- The text that is printed for a reply: the reply, and then what the buffer held behind it.
received_lem :
    (p : ℕ) (r : List ℕ) (x : Machine)
    → IsText r
    → length r < x.page_size
    → received (receive p r x) ≡ r ++ string_at (x.page_size - length r) x.recv_message (length r)
unfolding receive
received_lem p r x t h = rw (take-all x.page_size r (omega arith)) (
    string_at-memcpy r x.page_size x.recv_message 0 t (omega arith)
    ∙ ap (λ k. r ++ string_at (x.page_size - length r) x.recv_message k) (omega arith))

module _ {n s : ℕ} {a b : Machine} (z : Sized n s a b) (p : ℕ) (h : p < n) where
  -- Reading a page that the peer has modified, whose text is shorter than a page, prints the text
  -- of the page at the peer followed by what the reply buffer held behind that length. The last
  -- bytes of the pages and of the buffers are NUL, and a read of a proc_info takes the whole
  -- struct.
  pub read_one-prints :
      (message : List ℕ)
      → PageIs peer_modified a b p
      → region_string b (p * s) ≡ message
      → IsText message
      → length message < s
      → Ends
          (λ _ _ out.
            out
            ≡ text (message ++ string_at (s - length message) a.recv_message (length message)) ∷ [])
          (read_one p a b)
  unfolding request
  read_one-prints message k e t fits =
      rw (read_one-peer z p h k, ap (λ k. region_string b (p * k)) z.peer_size ∙ e)
        (ap (λ m. text m ∷ [])
          (received_lem p message (asks p a) t (omega (arith, z.self_size)) ∙ rw z.self_size))

  fetch-forgets :
      (r : List ℕ) (o : Owners)
      → PageIs o a b p
      → length r < s
      → read_one p (receive p r (asks p a)) (answers p a b)
        ≡ done (select_page p (receive p r (asks p a))) (answers p a b) (text [] ∷ [])
  unfolding receive request
  fetch-forgets r o k short =
      read_one-local (fetch-Sized z p h r short) p h both_shared (fetch-here z p h r o k) (inl refl)
      ∙ ap (λ m. done (select_page p (receive p r (asks p a))) (answers p a b) (text m ∷ []))
          (string_at-nul _ _ _ (ground arith))

  -- After a read of a page that the machine did not have, where pages and reply buffers end in a
  -- NUL and a read of a proc_info takes the whole struct, the next read of that page ends and
  -- prints the empty text, since the reply is not stored in the page.
  pub read_one-forgets :
      (o : Owners)
      → PageIs o a b p
      → self_flags o ≡ invalid
      → Ends
          (λ a' b' _. read_one p a' b' ≡ done (select_page p a') b' (text [] ∷ []))
          (read_one p a b)
  read_one-forgets nobody k e =
      rw (read_one-nobody z p h k) (fetch-forgets (0x20 ∷ []) nobody k z.some_bytes)
  read_one-forgets peer_modified k e = rw (read_one-peer z p h k) (
      fetch-forgets (region_string b (p * b.page_size)) peer_modified k
        (text-short z p h peer_modified k))
  read_one-forgets both_shared k e = ground arith
  read_one-forgets self_modified k e = ground arith

  pub stored :
      (message : List ℕ)
      → IsText message
      → length message < s
      → string_at (a.mapped * a.page_size - p * s) (memcpy a.mem (p * a.page_size) message) (p * s)
        ≡ message ++ region_string a (p * s + length message)
  stored message t fits =
      ap (λ k. string_at (a.mapped * a.page_size - p * s) (memcpy a.mem (p * k) message) (p * s))
        z.self_size
      ∙ string_at-memcpy message (a.mapped * a.page_size - p * s) a.mem (p * s) t
          (ground (arith, page-fits p n s h))
      ∙ ap (λ k. message ++ string_at k a.mem (p * s + length message)) (omega arith)

  -- A write puts the text at the start of the page, in front of what stood there behind it.
  pub write_one-stores :
      (o : Owners)
      → PageIs o a b p
      → (message : List ℕ) → IsText message
      → length message < s
      → Ends
          (λ a' _ _. region_string a' (p * s) ≡ message ++ region_string a (p * s + length message))
          (write_one p message a b)
  unfolding signal_write
  write_one-stores nobody k message t fits =
      rw (write_one_lem z p h message fits nobody k) (stored message t fits)
  write_one-stores o k message t fits =
      rw (write_one_lem z p h message fits o k) (stored message t fits)
