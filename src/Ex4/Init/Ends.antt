-- ===== src/Ex4/Init/Ends.antt =====
-- How ex4_init of EX_4/ex4.c ends behind its parser.
use lkp.Proj2.Kernel.{Number}
use lkp.Ex4.Init.{and_then, out, cleanup}
use lkp.Proj2.Store.{is_zero}
use lkp.Ex4.Entries.Frees.{free_entry-none, IsSeparate, FirstIn}
use lkp.Proj2.Store.Parsed.{Parsed}
use lkp.Prelude.{
  false, true, sym, inr, inl, append_assoc, ◌∙◌, Bool-cases, refl, ap, ◌+◌, arith, [], ◌≡◌, ◌∷◌,
  ◌++◌, if◌then◌else◌, ℕ, List,
}
use lkp.Ex4.Entries.{
  test_linked_list, destroy_linked_list_and_free, cleaning_up, data_in_the_list, data_lines, faults,
  returns, Globals, Line, Entry, Result,
}
use lkp.Prelude.Int.{pos, ℤ}

-- What a user sees of a run: the kernel log, and the result or a crash.
pub data Seen : Type 0 where
  returned : ℤ → List Line → Seen
  crashed : List Line → Seen

abbrev pub seen : Result → Seen
seen (returns err g) = returned err g.log
seen (faults g) = crashed g.log

abbrev pub value_lines : List ℤ → List Line
value_lines [] = []
value_lines (v ∷ vs) = data_in_the_list v ∷ value_lines vs

-- What the parser is to find in the tokens: the numbers up to the first error, which is that of a token
-- that is no number, or what is left in the register after the n-th number.
unfoldable pub parse_until : (List ℕ → Number) → (ℕ → ℤ) → ℕ → List (List ℕ) → Parsed
parse_until number left n [] = record { values = []; err = pos 0 }
parse_until number left n ([] ∷ tokens) = parse_until number left n tokens
parse_until number left n ((c ∷ p) ∷ tokens) =
    let rest = parse_until number left (n + 1) tokens in
    let v = number (c ∷ p) in
    let and_rest : Parsed = record { values = v.val ∷ rest.values; err = rest.err } in
    let alone : Parsed = record { values = v.val ∷ []; err = left n } in
    if is_zero v.err
    then (if is_zero (left n) then and_rest else alone)
    else record { values = []; err = v.err }

-- The end where the cleanup has printed: it crashes on a list of some numbers.
abbrev pub ending : ℤ → List ℤ → List Line → Seen
ending err [] log = returned err log
ending err (v ∷ vs) log = crashed log

-- Of the numbers before the first error, and that error: they are printed where there was no error, and
-- then the cleanup is announced.
abbrev pub expected : Parsed → Seen
expected p =
    ending p.err p.values ((if is_zero p.err then value_lines p.values else []) ++ cleaning_up ∷ [])

-- The result of the parser: its error and the list.
pub record Loaded (p : Parsed) (lines : List Line) (err : ℤ) (g : Globals) : Type 0 where
  pub same_err : err ≡ p.err
  pub log : g.log ≡ []
  pub printed : data_lines g.mylist ≡ lines ++ value_lines p.values
  pub first_in : FirstIn g.mylist g.heap
  pub separate : IsSeparate g.heap

pub Loaded-error :
    (err : ℤ) (lines : List Line) (g : Globals)
    → Loaded (record { values = []; err = pos 0 }) lines (pos 0) g
    → Loaded (record { values = []; err = err }) lines err g
Loaded-error err lines g h = record {
  same_err = refl;
  log = h.log;
  printed = h.printed;
  first_in = h.first_in;
  separate = h.separate;
}

abbrev pub Gives : Parsed → List Line → Result → Type 0
Gives p lines (returns err g) = Loaded p lines err g
Gives p lines (faults g) = ⊥

abbrev pub stored : ℕ → ℤ → Globals → Globals
stored a v g = record g {
  mylist = g.mylist ++ record { at = a; val = v } ∷ [];
  heap = a ∷ g.heap;
  calls = g.calls + 1;
}

pub data_lines-append :
    (l : List Entry) (a : ℕ) (v : ℤ)
    → data_lines (l ++ record { at = a; val = v } ∷ []) ≡ data_lines l ++ data_in_the_list v ∷ []
data_lines-append [] a v = refl
data_lines-append (e ∷ r) a v = ap (λ t. data_in_the_list e.val ∷ t) (data_lines-append r a v)

pub FirstIn-stored :
    (l : List Entry) (a : ℕ) (v : ℤ) (h : List ℕ)
    → FirstIn l h
    → FirstIn (l ++ record { at = a; val = v } ∷ []) (a ∷ h)
FirstIn-stored [] a v h f = ground arith
FirstIn-stored (e ∷ r) a v h f = ground (arith, f)

pub Gives-cons :
    (v : ℤ) (p : Parsed) (lines : List Line) (r : Result)
    → Gives p (lines ++ data_in_the_list v ∷ []) r
    → Gives (record { values = v ∷ p.values; err = p.err }) lines r
Gives-cons v p lines (returns err g) h = record {
  same_err = h.same_err;
  log = h.log;
  printed = h.printed ∙ append_assoc lines (data_in_the_list v ∷ []) (value_lines p.values);
  first_in = h.first_in;
  separate = h.separate;
}
Gives-cons v p lines (faults g) h = h

abbrev pub ended : ℤ → List Entry → List Line → Seen
ended err [] log = returned err log
ended err (e ∷ r) log = crashed log

pub destroy-ended :
    (err : ℤ) (l : List Entry) (g : Globals)
    → FirstIn l g.heap
    → IsSeparate g.heap
    → seen (and_then (destroy_linked_list_and_free l g) (λ _ g'. returns err g'))
      ≡ ended err l g.log
unfolding destroy_linked_list_and_free
destroy-ended err [] g f s = refl
destroy-ended err (e ∷ r) g f s = ground (arith, free_entry-none e.at g.heap s f)

pub ended-ending :
    (err : ℤ) (l : List Entry) (vs : List ℤ) (log : List Line)
    → data_lines l ≡ value_lines vs
    → ended err l log ≡ ending err vs log
ended-ending err [] [] log e = refl
ended-ending err [] (v ∷ vs) log e = ground (arith, e)
ended-ending err (x ∷ l) [] log e = ground (arith, e)
ended-ending err (x ∷ l) (v ∷ vs) log e = refl

pub out-expected :
    (p : Parsed) (err : ℤ) (g : Globals) → Loaded p [] err g → seen (out err g) ≡ expected p
unfolding out cleanup test_linked_list
out-expected p err g h =
    let run = λ (log : List Line).
      destroy-ended err g.mylist (record g { log = log ++ cleaning_up ∷ [] }) h.first_in h.separate
      ∙ ended-ending err g.mylist p.values (log ++ cleaning_up ∷ []) h.printed in
    elim (Bool-cases (is_zero err)) [
      | inl t ↦
          let same : is_zero p.err ≡ true = ap is_zero (sym h.same_err) ∙ t in
          rw (t, same)
            (run (g.log ++ data_lines g.mylist) ∙ (λ i.
              ending (h.same_err i) p.values ((h.log i ++ h.printed i) ++ cleaning_up ∷ [])))
      | inr t ↦
          let same : is_zero p.err ≡ false = ap is_zero (sym h.same_err) ∙ t in
          rw (t, same)
            (run g.log ∙ (λ i. ending (h.same_err i) p.values (h.log i ++ cleaning_up ∷ [])))
    ]

pub and_then-expected :
    (p : Parsed) (r : Result) → Gives p [] r → seen (and_then r out) ≡ expected p
and_then-expected p (returns err g) h = out-expected p err g h
and_then-expected p (faults g) h = absurd h
