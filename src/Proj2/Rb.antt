-- ===== src/Proj2/Rb.antt =====
-- The search tree of Project_2/submission_new/proj2.c: `insert_rb_tree` walks to the place of the new
-- value and links it there. The rebalancing of rb_insert_color is the kernel's.
use lkp.Proj2.Sorted.{
  insert_sorted-back, insert_sorted-front, insert_sorted-here, AllBelow-mono, IsSorted-middle,
  AllBelow, IsSorted, insert_sorted,
}
use lkp.Prelude.{arith, List, if◌then◌else◌, ◌≡◌, ◌++◌, Option, [], ◌∷◌, some, none, refl}
use lkp.Prelude.Int.{◌<ℤ◌, ℤ, ltb_ℤ}

pub data Rb : Type 0 where
  leaf : Rb
  node : Rb → ℤ → Rb → Rb

-- rb_first, rb_next, ...: the values from the left to the right
unfoldable pub in_order : Rb → List ℤ
in_order leaf = []
in_order (node l x r) = in_order l ++ x ∷ in_order r

abbrev with_left : ℤ → Rb → Option Rb → Option Rb
with_left x r none = none
with_left x r (some l) = some (node l x r)

abbrev with_right : Rb → ℤ → Option Rb → Option Rb
with_right l x none = none
with_right l x (some r) = some (node l x r)

-- The while loop and rb_link_node; `none` is the return of -1, at an equal value.
unfoldable pub link : Rb → ℤ → Option Rb
link leaf v = some (node leaf v leaf)
link (node l x r) v =
    let left = link l v in
    let right = link r v in
    if ltb_ℤ v x then with_left x r left else if ltb_ℤ x v then with_right l x right else none

-- What `link` has to give: the set with the value, or `none` for a value that is there.
abbrev pub Links : Rb → ℤ → Option Rb → Type 0
Links t v none = insert_sorted v (in_order t) ≡ in_order t
Links t v (some t') = in_order t' ≡ insert_sorted v (in_order t)

left-Links :
    (l : Rb) (x : ℤ) (r : Rb) (v : ℤ) (made : Option Rb)
    → v <ℤ x
    → Links l v made
    → Links (node l x r) v (with_left x r made)
unfolding in_order
left-Links l x r v none h e = ground (arith, e, insert_sorted-front v x (in_order l) (in_order r) h)
left-Links l x r v (some l') h e =
    ground (arith, e, insert_sorted-front v x (in_order l) (in_order r) h)

right-Links :
    (l : Rb) (x : ℤ) (r : Rb) (v : ℤ) (made : Option Rb)
    → AllBelow v (in_order l)
    → x <ℤ v
    → Links r v made
    → Links (node l x r) v (with_right l x made)
unfolding in_order
right-Links l x r v none b h e =
    ground (arith, e, insert_sorted-back v x (in_order l) (in_order r) b h)
right-Links l x r v (some r') b h e =
    ground (arith, e, insert_sorted-back v x (in_order l) (in_order r) b h)

pub link-Links : (t : Rb) (v : ℤ) → IsSorted (in_order t) → Links t v (link t v)
unfolding link in_order insert_sorted
link-Links leaf v s = refl
link-Links (node l x r) v s =
    let (sl, bl, sr) = IsSorted-middle (in_order l) x (in_order r) s in
    ground (
      arith,
      left-Links l x r v (link l v),
      right-Links l x r v (link r v),
      link-Links l v sl,
      link-Links r v sr,
      AllBelow-mono x v (in_order l) bl,
      insert_sorted-here v x (in_order l) (in_order r),
    )
