-- ===== src/Proc/Preorder.antt =====
-- What `recursive_search` of Project_4/part1/proj4.c prints: one line for each task, parents first.
use lkp.Proc.Search.{search_children, print_task, indent, recursive_search}
use lkp.Proc.Text.{show, digits}
use lkp.Proc.Task.{nil, count_all, cons, Tasks, task, Info, Task, count}
use lkp.Prelude.{
  ◌==◌, ◌%◌, ◌/◌, if◌then◌else◌, ◌∙◌, replicate, ◌*◌, ◌-◌, ap, zero, suc, append-nil, length-append,
  append_assoc, ◌+◌, sym, arith, ◌++◌, ◌≡◌, length, List, ℕ, [], ◌∷◌, refl,
}

-- The tasks in the order of a walk from the root, each with its depth.
unfoldable mutual
  pub preorder : ℕ → Task → List (ℕ × Info)
  preorder depth (task i ts) = (depth, i) ∷ preorder_all (depth + 1) ts

  pub preorder_all : ℕ → Tasks → List (ℕ × Info)
  preorder_all depth nil = []
  preorder_all depth (cons t ts) = preorder depth t ++ preorder_all depth ts

-- The line of a task below `depth - 1` others: two blanks for each of them, a dash and the name, and
-- the pid in brackets.
pub line : ℕ → Info → List ℕ
line depth i =
    replicate (2 * (depth - 1)) 0x20
    ++ b'-' ∷ (i.comm ++ (0x20 ∷ b'[' ∷ (show i.pid ++ b']' ∷ 0x0a ∷ [])))

abbrev pub print_all : List (ℕ × Info) → List ℕ
print_all [] = []
print_all ((depth, i) ∷ rest) = line depth i ++ print_all rest

indent-replicate : (n : ℕ) → indent n ≡ replicate (2 * n) 0x20
unfolding indent
indent-replicate zero = refl
indent-replicate (suc n) =
    let twice : 2 * suc n ≡ suc (suc (2 * n)) = omega arith in
    rw twice (ap (λ bs. 0x20 ∷ 0x20 ∷ bs) (indent-replicate n))

print_task-line : (depth : ℕ) (i : Info) → print_task depth i ≡ line depth i
unfolding print_task line
print_task-line depth i = rw (indent-replicate (depth - 1)) refl

print_all-append : (xs ys : List (ℕ × Info)) → print_all (xs ++ ys) ≡ print_all xs ++ print_all ys
print_all-append [] ys = refl
print_all-append ((depth, i) ∷ xs) ys =
    rw (print_all-append xs ys) (sym (append_assoc (line depth i) (print_all xs) (print_all ys)))

mutual
  unfolding recursive_search preorder

  search-eq :
      (t : Task) (space : ℕ) (log : List ℕ)
      → recursive_search t space log ≡ log ++ print_all (preorder space t)
  search-eq (task i ts) space log =
      rw (search_all-eq ts (space + 1) (log ++ print_task space i), print_task-line space i)
        (append_assoc log (line space i) (print_all (preorder_all (space + 1) ts)))

  search_all-eq :
      (ts : Tasks) (space : ℕ) (log : List ℕ)
      → search_children ts space log ≡ log ++ print_all (preorder_all space ts)
  search_all-eq nil space log = sym (append-nil log)
  search_all-eq (cons t ts) space log =
      rw
        (
          search-eq t space log,
          search_all-eq ts space (log ++ print_all (preorder space t)),
          print_all-append (preorder space t) (preorder_all space ts),
        )
        (append_assoc log (print_all (preorder space t)) (print_all (preorder_all space ts)))

mutual
  unfolding preorder count

  length-preorder_at : (t : Task) (depth : ℕ) → length (preorder depth t) ≡ count t
  length-preorder_at (task i ts) depth = omega (arith, length-preorder_all ts (depth + 1))

  length-preorder_all : (ts : Tasks) (depth : ℕ) → length (preorder_all depth ts) ≡ count_all ts
  length-preorder_all nil depth = refl
  length-preorder_all (cons t ts) depth = omega (
    arith,
    length-append (preorder depth t) (preorder_all depth ts),
    length-preorder_at t depth,
    length-preorder_all ts depth,
  )

-- How many newlines are in a text.
unfoldable pub newlines : List ℕ → ℕ
newlines [] = 0
newlines (c ∷ cs) = (if c == 0x0a then 1 else 0) + newlines cs

newlines-append : (xs ys : List ℕ) → newlines (xs ++ ys) ≡ newlines xs + newlines ys
unfolding newlines
newlines-append [] ys = omega arith
newlines-append (x ∷ xs) ys = omega (arith, newlines-append xs ys)

newlines-replicate : (n : ℕ) → newlines (replicate n 0x20) ≡ 0
unfolding newlines
newlines-replicate zero = refl
newlines-replicate (suc n) = ground (arith, newlines-replicate n)

newlines-digits : (f n : ℕ) (acc : List ℕ) → newlines (digits f n acc) ≡ newlines acc
unfolding newlines digits
newlines-digits zero n acc = refl
newlines-digits (suc f) n acc = ground (arith, newlines-digits f (n / 10) ((b'0' + n % 10) ∷ acc))

newlines-show : (n : ℕ) → newlines (show n) ≡ 0
unfolding newlines show
newlines-show n = newlines-digits (n + 1) n []

newlines-line : (depth : ℕ) (i : Info) → newlines i.comm ≡ 0 → newlines (line depth i) ≡ 1
unfolding newlines line
newlines-line depth i h = ground (
  arith,
  newlines-append (replicate (2 * (depth - 1)) 0x20)
      (b'-' ∷ (i.comm ++ (0x20 ∷ b'[' ∷ (show i.pid ++ b']' ∷ 0x0a ∷ [])))),
  newlines-replicate (2 * (depth - 1)),
  newlines-append i.comm (0x20 ∷ b'[' ∷ (show i.pid ++ b']' ∷ 0x0a ∷ [])),
  newlines-append (show i.pid) (b']' ∷ 0x0a ∷ []),
  newlines-show i.pid,
)

-- No name has a newline.
abbrev pub ArePlain : List (ℕ × Info) → Type 0
ArePlain [] = Unit {0}
ArePlain ((depth, i) ∷ rest) = (newlines i.comm ≡ 0) × ArePlain rest

newlines-print_all : (xs : List (ℕ × Info)) → ArePlain xs → newlines (print_all xs) ≡ length xs
unfolding newlines
newlines-print_all [] h = refl
newlines-print_all ((depth, i) ∷ xs) h = omega (
  arith,
  newlines-append (line depth i) (print_all xs),
  newlines-line depth i h.0,
  newlines-print_all xs h.1,
)

-- The walk prints, behind the text before it, one line for each task of the tree, a parent before
-- its children: two blanks for each level of its depth but the first, a dash and the name, and the
-- pid in brackets, with a newline. Where no task's name has a newline, the text gains exactly as
-- many newlines as there are tasks.
pub recursive_search-preorder :
    (t : Task) (space : ℕ) (log : List ℕ)
    → ArePlain (preorder space t)
    → (recursive_search t space log ≡ log ++ print_all (preorder space t))
      × (length (preorder space t) ≡ count t)
      × (newlines (recursive_search t space log) ≡ newlines log + count t)
recursive_search-preorder t space log plain = (
  search-eq t space log,
  length-preorder_at t space,
  ap newlines (search-eq t space log)
      ∙ omega (
        arith,
        newlines-append log (print_all (preorder space t)),
        newlines-print_all (preorder space t) plain,
        length-preorder_at t space,
      ),
)
