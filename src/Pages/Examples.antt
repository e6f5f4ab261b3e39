-- ===== src/Pages/Examples.antt =====
-- The menu of Project_3/part3/part3.c in small regions.
use lkp.Msi.Memory.{string_at, IsText}
use lkp.Pages.Ready.{IsReady}
use lkp.Prelude.{
  ◌-◌, ◌++◌, ◌≤◌, replicate, ◌+◌, ◌⊎◌, [], ◌≡◌, some, refl, ◌*◌, ◌<◌, arith, ◌∷◌, ℕ, List,
}
use lkp.Pages.Menu.{w, refused, pages, r, menu}
use lkp.Pages.Texts.{menu-write_read, menu-write_read_all, Shows}
use lkp.Pages.Data.{all_pages, Process}

-- Three pages of eight zeros.
abbrev three : Process
three = record {
  mch = record { addr = 4096; pg_size = 3; uffd = 5; length = 24 };
  page_size = 8;
  base = 4096;
  mem = λ i. 0;
}

three-IsReady : IsReady three
three-IsReady = record {
  at_base = refl;
  has_pages = refl;
  has_bytes = omega arith;
  is_small = omega arith;
}

-- "hi"
abbrev hi : List ℕ
hi = b'h' ∷ b'i' ∷ []

hi-IsText : IsText hi
hi-IsText = (omega arith, (omega arith, tt))

menu-write_read_example :
    Shows
      (λ y reply.
        ((i : ℕ) → (i < 1 * 8) ⊎ (1 * 8 + 2 ≤ i) → y.mem i ≡ three.mem i)
        × (menu (r 1) y
            ≡ some (y, pages ((hi ++ string_at (24 - 1 * 8 - 2) three.mem (1 * 8 + 2)) ∷ []))))
      (menu (w 1 hi) three)
menu-write_read_example =
    menu-write_read three-IsReady 1 hi 10 (omega arith) hi-IsText (omega arith) (omega arith)
      (omega arith) refl

menu-write_read_all_example :
    Shows
      (λ y reply. menu (r all_pages) y ≡ some (y, pages (replicate 3 hi)))
      (menu (w all_pages hi) three)
menu-write_read_all_example =
    menu-write_read_all three-IsReady hi hi-IsText (omega arith) (λ i. refl)

refused_test : menu (r 3) three ≡ some (three, refused)
unfolding menu
refused_test = refl
