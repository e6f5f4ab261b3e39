-- ===== src/Bus/All.antt =====
-- The commands for all pages in Project_3/part4/part4.c. They are reached only where the flags in front
-- of states_list, which states_list[-1] reads, are not set.
use lkp.Bus.Folds.{copy_page, clear_page, fold_pages}
use lkp.Msi.Data.{update, MsiList, unset, shared}
use lkp.Prelude.{none, some, zero, arith, ◌≡◌, ◌+◌, ◌<◌, ◌≤◌, suc, List, ℕ}
use lkp.Bus.Single.{IsReady}
use lkp.Bus.Access.{assign_from}
use lkp.Bus.First
use lkp.Bus.Second
use lkp.Bus.Data.{Turn, Line, Globals}

pub assign_from-get :
    (f : MsiList) (n i : ℕ) (states : ℕ → MsiList) (p : ℕ)
    → (p < i → states p ≡ f)
    → p < i + n
    → assign_from f n i states p ≡ f
unfolding assign_from
assign_from-get f zero i states p set h = set (omega arith)
assign_from-get f (suc n) i states p set h =
    assign_from-get f n (i + 1) (update states i f) p (λ k. ground (arith, set)) (omega arith)

abbrev pub Ends : (Globals → List Line → Type 0) → Turn → Type 0
Ends claim none = ⊥
Ends claim (some (x, out)) = claim x out

-- The lines `out`, with all pages shared.
abbrev pub SharesAll : List Line → Globals → List Line → Type 0
SharesAll lines x out = (out ≡ lines) × ((p : ℕ) → p < x.pg_size → x.states_list p ≡ shared)

abbrev shared_all : Globals → Globals
shared_all x = record x { states_list = assign_from shared x.pg_size 0 x.states_list }

module _ {x : Globals} (z : IsReady x) (apart : x.before ≡ unset) (fits : 8 ≤ x.page_size) where
  abbrev first_mem : List ℕ → ℕ → ℕ
  first_mem message =
      fold_pages (copy_page message) x.pg_size 0 x.page_size
        (fold_pages clear_page x.pg_size 0 x.page_size x.mem)
