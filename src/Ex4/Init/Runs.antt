-- ===== src/Ex4/Init/Runs.antt =====
-- What ex4_init of EX_4/ex4.c prints and how it ends.
use lkp.Ex4.Init.Ends.{
  Loaded-error, parse_until, FirstIn-stored, Gives-cons, and_then-expected, expected,
  data_lines-append, Gives, seen, stored, Loaded,
}
use lkp.Ex4.Init.{parse_params, ex4_init, parse_tokens}
use lkp.Proj2.Store.{strsep, is_zero}
use lkp.Ex4.Entries.Frees.{IsSeparate, IsAllocator}
use lkp.Prelude.{
  ◌+◌, true, sym, append-nil, inr, inl, ◌∙◌, Bool-cases, refl, ap, arith, [], some, ◌≡◌, ◌∷◌, ◌++◌,
  ℕ, List,
}
use lkp.Ex4.Entries.{fresh, store_value, data_in_the_list, returns, Globals, Line, Kernel}
use lkp.Prelude.Int.{pos, ℤ}

module _ (k : Kernel) (law : IsAllocator k.kmalloc)
    (allocates : (n : ℕ) (h : List ℕ) → (a : ℕ) × (k.kmalloc n h ≡ some a)) where
  IsSeparate-stored :
      (n a : ℕ) (h : List ℕ) → k.kmalloc n h ≡ some a → IsSeparate h → IsSeparate (a ∷ h)
  IsSeparate-stored n a h e s b c m o w =
      ground (arith, law.apart n a b h e, law.apart n a c h e, s b c, m, o, w)

  store_value-stored :
      (v : ℤ) (g : Globals)
      → store_value k v g ≡ returns (k.left g.calls) (stored (allocates g.calls g.heap).0 v g)
  unfolding store_value
  store_value-stored v g = ground (arith, (allocates g.calls g.heap).1)

  Loaded-stored :
      (v : ℤ) (g : Globals) (lines : List Line)
      → Loaded (record { values = []; err = pos 0 }) lines (pos 0) g
      → Loaded
          (record { values = []; err = pos 0 })
          (lines ++ data_in_the_list v ∷ [])
          (pos 0)
          (stored (allocates g.calls g.heap).0 v g)
  Loaded-stored v g lines h =
      let a = (allocates g.calls g.heap).0 in
      record {
        same_err = refl;
        log = h.log;
        printed =
            data_lines-append g.mylist a v
            ∙ ap (λ l. l ++ data_in_the_list v ∷ []) (h.printed ∙ append-nil lines)
            ∙ sym (append-nil (lines ++ data_in_the_list v ∷ []));
        first_in = FirstIn-stored g.mylist a v g.heap h.first_in;
        separate = IsSeparate-stored g.calls a g.heap (allocates g.calls g.heap).1 h.separate;
      }

  parse_tokens-Gives :
      (tokens : List (List ℕ)) (g : Globals) (lines : List Line)
      → Loaded (record { values = []; err = pos 0 }) lines (pos 0) g
      → Gives
          (parse_until k.kstrtoint k.left g.calls tokens)
          lines
          (parse_tokens k tokens (pos 0) g)
  unfolding parse_until parse_tokens
  parse_tokens-Gives [] g lines h = h
  parse_tokens-Gives ([] ∷ tokens) g lines h = parse_tokens-Gives tokens g lines h
  parse_tokens-Gives ((c ∷ p) ∷ tokens) g lines h =
      let number = k.kstrtoint (c ∷ p) in
      let left = k.left g.calls in
      let now = stored (allocates g.calls g.heap).0 number.val g in
      let loaded = Loaded-stored number.val g lines h in
      let rest = parse_tokens-Gives tokens now (lines ++ data_in_the_list number.val ∷ []) loaded in
      elim (Bool-cases (is_zero number.err)) [
        | inl t ↦ elim (Bool-cases (is_zero left)) [
          | inl z ↦
              rw (t, store_value-stored number.val g, z)
                (Gives-cons number.val (parse_until k.kstrtoint k.left (g.calls + 1) tokens) lines
                  (parse_tokens k tokens (pos 0) now) rest)
          | inr z ↦
              rw (t, store_value-stored number.val g, z)
                (Gives-cons number.val (record { values = []; err = left }) lines (returns left now)
                  (Loaded-error left (lines ++ data_in_the_list number.val ∷ []) now loaded))
        ]
        | inr t ↦ rw t (Loaded-error number.err lines g h)
      ]

  -- Where kstrdup and every kmalloc give memory and new objects overlap no others, ex4_init stores, from
  -- fresh globals, the numbers of the text up to the first error, which is that of a token that is
  -- no number or a value other than 0 that store_value, without a return statement, leaves in the
  -- register. Without an error it prints the numbers; it announces the cleanup, which crashes at
  -- the first entry where there is a number. Without one, ex4_init returns the error, or 0.
  pub ex4_init-expected :
      (text : List ℕ)
      → k.kstrdup ≡ true
      → seen (ex4_init k (some text) fresh)
        ≡ expected (parse_until k.kstrtoint k.left 0 (strsep text))
  unfolding ex4_init parse_params
  ex4_init-expected text d = simp (d) (
      and_then-expected (parse_until k.kstrtoint k.left 0 (strsep text))
        (parse_tokens k (strsep text) (pos 0) fresh)
        (parse_tokens-Gives (strsep text) fresh [] (record {
          same_err = refl;
          log = refl;
          printed = refl;
          first_in = _;
          separate = λ a b m. ground (arith, m);
        })))
