-- ===== src/Uffd/Passes.antt =====
-- The three loops of Project_3_new/part1/uffd.c, over a region of `total` pages of 4096 bytes.
use mathlib.Core.Path.{subst}
use native.Mathlib.Decide.{dec_lt}
use lkp.Uffd.Letters.{
  touch-touched, touched, next_count, touched-Filled, lettered, DoneWith, letters, Filled, IsGood,
}
use lkp.Prelude.{
  if◌then◌else◌, refl, true, ap, false, [], ltb, ◌∷◌, arith, zero, suc, ◌^◌, ◌*◌, ◌+◌, ◌≤◌, ◌≡◌,
  ◌<◌, ◌/◌, List, ℕ,
}
use lkp.Uffd.Handler.{Region, Answer}
use lkp.Uffd.Main.{and_then, line, Line, read_pass, Outcome, exits, overflows, done}

-- All pages are filled, and the lines are those of the pass.
abbrev pub Passed : ℕ → ℕ → List Line → Region → List Line → Type 0
Passed a total lines y out = Filled a total y × (out ≡ lines)

line-Filled :
    (a c l pass : ℕ) (x : Region) → Filled a c x → l / 4096 < c → line pass l x ≡ lettered pass a l
line-Filled a c l pass x f h =
    λ i. record { pass = pass; address = f.at_addr i + l; char = f.filled l h i }

Passed-prepend :
    (a total : ℕ) (e : Line) (lines : List Line) (x : Region) (o : Outcome)
    → DoneWith (Passed a total lines) o
    → DoneWith (Passed a total (e ∷ lines)) (and_then (done x (e ∷ [])) (λ z. o))
Passed-prepend a total e lines x (done y more) (f, h) = (f, ap (λ t. e ∷ t) h)
Passed-prepend a total e lines x exits h = h
Passed-prepend a total e lines x overflows h = h

module _ (answers : ℕ → Answer) (good : (n : ℕ) → IsGood (answers n)) (a total : ℕ) where
  pub read_pass-Passed :
      (pass step n l c : ℕ) (x : Region)
      → Filled a c x
      → l / 4096 ≤ c
      → c ≤ total
      → step ≤ 4096
      → total * 4096 ≤ l + n * step
      → total * 4096 + 4096 ≤ 2 ^ 31
      → DoneWith
          (Passed a total (letters a pass step (total * 4096) n l))
          (read_pass answers pass step (total * 4096) n l x)
  unfolding read_pass letters
  read_pass-Passed pass step zero l c x f h k s e b =
      let all : c ≡ total = omega arith in
      let test : ltb l (total * 4096) ≡ false = ground arith in
      rw test (subst (λ n. Filled a n x) all f, refl)
  read_pass-Passed pass step (suc n) l c x f h k s e b = elim (dec_lt l (total * 4096)) [
    | yes below ↦
        let now = touched-Filled a c l x f in
        let small : ltb (l + step) (2 ^ 31) ≡ true = ground arith in
        let test : ltb l (total * 4096) ≡ true = ground arith in
        let rest =
          read_pass-Passed pass step n (l + step) (next_count c l) (touched c l x) now
            (ground arith) (ground arith) s (omega arith) b in
        let here = line-Filled a (next_count c l) l pass (touched c l x) now (ground arith) in
        let touching =
          touch-touched answers a c l x
            (λ y. and_then (done y (line pass l y ∷ [])) (λ z.
              if ltb (l + step) (2 ^ 31)
              then read_pass answers pass step (total * 4096) n (l + step) z
              else overflows))
            good f h in
        rw test (
          rw touching (
            rw small (
              rw here (
                Passed-prepend a total (lettered pass a l)
                  (letters a pass step (total * 4096) n (l + step)) (touched c l x)
                  (read_pass answers pass step (total * 4096) n (l + step) (touched c l x)) rest))))
    | no above ↦
        let all : c ≡ total = omega arith in
        let test : ltb l (total * 4096) ≡ false = ground arith in
        rw test (subst (λ n. Filled a n x) all f, refl)
  ]
