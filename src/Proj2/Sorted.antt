-- ===== src/Proj2/Sorted.antt =====
-- Sets of integers as increasing lists, the specification of the trees of
-- Project_2/submission_new/proj2.c.
use lkp.Prelude.Int.{ltb_ℤ, ◌<ℤ◌, ℤ}
use lkp.Prelude.{◌≡◌, if◌then◌else◌, arith, ◌++◌, List, [], ◌∷◌}

-- Puts `v` in its place; a list that has `v` stays as it is.
unfoldable pub insert_sorted : ℤ → List ℤ → List ℤ
insert_sorted v [] = v ∷ []
insert_sorted v (x ∷ xs) =
    let rest = insert_sorted v xs in
    if ltb_ℤ v x then v ∷ x ∷ xs else if ltb_ℤ x v then x ∷ rest else x ∷ xs

unfoldable pub sorted_set : List ℤ → List ℤ → List ℤ
sorted_set acc [] = acc
sorted_set acc (v ∷ vs) = sorted_set (insert_sorted v acc) vs

-- Every member is below `v`, or above it.
abbrev pub AllBelow : ℤ → List ℤ → Type 0
AllBelow v [] = Unit {0}
AllBelow v (x ∷ xs) = (x <ℤ v) × AllBelow v xs

abbrev pub AllAbove : ℤ → List ℤ → Type 0
AllAbove v [] = Unit {0}
AllAbove v (x ∷ xs) = (v <ℤ x) × AllAbove v xs

abbrev pub IsSorted : List ℤ → Type 0
IsSorted [] = Unit {0}
IsSorted (x ∷ xs) = AllAbove x xs × IsSorted xs

-- Below the middle of a list, the new value goes to the front part.
pub insert_sorted-front :
    (v x : ℤ) (xs ys : List ℤ)
    → v <ℤ x
    → insert_sorted v (xs ++ x ∷ ys) ≡ insert_sorted v xs ++ x ∷ ys
unfolding insert_sorted
insert_sorted-front v x [] ys h = ground arith
insert_sorted-front v x (y ∷ xs) ys h = ground (arith, insert_sorted-front v x xs ys)

pub insert_sorted-back :
    (v x : ℤ) (xs ys : List ℤ)
    → AllBelow v xs
    → x <ℤ v
    → insert_sorted v (xs ++ x ∷ ys) ≡ xs ++ x ∷ insert_sorted v ys
unfolding insert_sorted
insert_sorted-back v x [] ys b h = ground arith
insert_sorted-back v x (y ∷ xs) ys b h = ground (arith, insert_sorted-back v x xs ys b.1 h)

pub insert_sorted-here :
    (v x : ℤ) (xs ys : List ℤ)
    → AllBelow v xs
    → v ≡ x
    → insert_sorted v (xs ++ x ∷ ys) ≡ xs ++ x ∷ ys
unfolding insert_sorted
insert_sorted-here v x [] ys b h = ground arith
insert_sorted-here v x (y ∷ xs) ys b h = ground (arith, insert_sorted-here v x xs ys b.1 h)

AllAbove-insert_sorted :
    (w v : ℤ) (xs : List ℤ) → w <ℤ v → AllAbove w xs → AllAbove w (insert_sorted v xs)
unfolding insert_sorted
AllAbove-insert_sorted w v [] h a = ground arith
AllAbove-insert_sorted w v (x ∷ xs) h a = ground (arith, AllAbove-insert_sorted w v xs h a.1)

AllAbove-mono : (w v : ℤ) (xs : List ℤ) → w <ℤ v → AllAbove v xs → AllAbove w xs
AllAbove-mono w v [] h a = tt
AllAbove-mono w v (x ∷ xs) h a = (omega arith, AllAbove-mono w v xs h a.1)

pub AllBelow-mono : (v w : ℤ) (xs : List ℤ) → AllBelow v xs → ¬ (w <ℤ v) → AllBelow w xs
AllBelow-mono v w [] h a = tt
AllBelow-mono v w (x ∷ xs) h a = (omega arith, AllBelow-mono v w xs h.1 a)

pub insert_sorted-IsSorted : (v : ℤ) (xs : List ℤ) → IsSorted xs → IsSorted (insert_sorted v xs)
unfolding insert_sorted
insert_sorted-IsSorted v [] s = ground arith
insert_sorted-IsSorted v (x ∷ xs) s =
    ground
      (arith, insert_sorted-IsSorted v xs s.1, AllAbove-insert_sorted x v xs, AllAbove-mono v x xs)

-- The parts of a sorted list around a member.
pub IsSorted-middle :
    (xs : List ℤ) (x : ℤ) (ys : List ℤ)
    → IsSorted (xs ++ x ∷ ys)
    → IsSorted xs × AllBelow x xs × IsSorted ys
IsSorted-middle [] x ys s = (tt, tt, s.1)
IsSorted-middle (y ∷ xs) x ys s =
    let (a, b, c) = IsSorted-middle xs x ys s.1 in
    let (d, e) = above_append y xs x ys s.0 in ((d, a), (e, b), c)
  where
    above_append :
        (y : ℤ) (xs : List ℤ) (x : ℤ) (ys : List ℤ)
        → AllAbove y (xs ++ x ∷ ys)
        → AllAbove y xs × (y <ℤ x)
    above_append y [] x ys h = (tt, h.0)
    above_append y (z ∷ xs) x ys h = let (a, b) = above_append y xs x ys h.1 in ((h.0, a), b)
