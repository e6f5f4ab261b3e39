-- ===== src/Msi/Race.antt =====
-- The threads of Project_3_new/part4/part4.c interleaved: the menu of a machine runs while messages
-- are on their way, and a server thread handles its messages one by one. A step is the stretch of a
-- thread between two calls of `send` and `read`.
use lkp.Msi.Client.{receive, write_page, local, fetch, read_page, ends_in_buffer}
use lkp.Prelude.Int.{pos}
use lkp.Msi.Server.{handle}
use lkp.Msi.Data.{invalid, set_msi, shared, max_size, ProcInfo, Machine}
use lkp.Prelude.{
  ◌||◌, ◌==◌, Bool-cases, ◌<◌, Option, ◌≡◌, ◌++◌, List, ◌≢◌, arith, ℕ, zero, suc, true, [], ◌∷◌,
  none, some, inl, inr,
}

-- One process: its globals, the messages that wait for its server thread, the page whose reply the
-- menu waits for, and the replies that have come.
pub record Half : Type 0 where
  pub machine : Machine
  pub inbox : List ProcInfo
  pub awaited : Option ℕ
  pub replies : List (List ℕ)

abbrev pub quiet : Machine → Half
quiet x = record { machine = x; inbox = []; awaited = none; replies = [] }

abbrev pub post : ProcInfo → Half → Half
post d y = record y { inbox = y.inbox ++ d ∷ [] }

-- The replies that are left, where a `read` has taken `n` bytes of the first.
abbrev pub unread : ℕ → List ℕ → List (List ℕ) → List (List ℕ)
unread zero [] rs = rs
unread zero (c ∷ cs) rs = (c ∷ cs) ∷ rs
unread (suc n) [] rs = rs
unread (suc n) (c ∷ cs) rs = unread n cs rs

pub data Step : Half → Half → Half → Half → Type 0 where
  ask :
      {x y : Half} (p : ℕ) (m : Machine)
      → x.awaited ≡ none
      → read_page p x.machine ≡ some (m, fetch)
      → Step x y (record x { machine = m; awaited = some p }) (post m.temp_data y)
  look :
      {x y : Half} (p : ℕ) (m : Machine) (s : List ℕ)
      → x.awaited ≡ none
      → read_page p x.machine ≡ some (m, local s)
      → Step x y (record x { machine = m }) y
  tell :
      {x y : Half} (p : ℕ) (message : List ℕ) (m : Machine)
      → x.awaited ≡ none
      → write_page p message x.machine ≡ some m
      → Step x y (record x { machine = m }) (post m.temp_data y)
  hear :
      {x y : Half} (d : ProcInfo) (ds : List ProcInfo) (m : Machine)
      → x.inbox ≡ d ∷ ds
      → handle d x.machine ≡ some (m, none)
      → Step x y (record x { machine = m; inbox = ds }) y
  answer :
      {x y : Half} (d : ProcInfo) (ds : List ProcInfo) (m : Machine) (r : List ℕ)
      → x.inbox ≡ d ∷ ds
      → handle d x.machine ≡ some (m, some r)
      → Step x y (record x { machine = m; inbox = ds }) (record y { replies = y.replies ++ r ∷ [] })
  wake :
      {x y : Half} (p : ℕ) (r : List ℕ) (rs : List (List ℕ))
      → x.awaited ≡ some p
      → x.replies ≡ r ∷ rs
      → ends_in_buffer (receive p r x.machine) ≡ true
      → Step x y
          (record x {
            machine = receive p r x.machine;
            awaited = none;
            replies = unread x.machine.page_size r rs;
          })
          y
  other : {x y x' y' : Half} → Step y x y' x' → Step x y x' y'

pub data Reach (x y : Half) : Half → Half → Type 0 where
  here : Reach x y x y
  then_ : {u v u' v' : Half} → Reach x y u v → Step u v u' v' → Reach x y u' v'

-- Both menus wait, and nothing is on its way.
pub record IsDeadlock (x y : Half) : Type 0 where
  pub first_waits : x.awaited ≢ none
  pub second_waits : y.awaited ≢ none
  pub first_inbox : x.inbox ≡ []
  pub second_inbox : y.inbox ≡ []
  pub first_replies : x.replies ≡ []
  pub second_replies : y.replies ≡ []

turn_over : {x y : Half} → IsDeadlock x y → IsDeadlock y x
turn_over d = ground arith

-- When both menus wait, both inboxes are empty and no reply is on its way, no thread takes a step.
pub deadlock_final : {x y x' y' : Half} → IsDeadlock x y → ¬ Step x y x' y'
deadlock_final d (ask p m e _) = d.first_waits e
deadlock_final d (look p m s e _) = d.first_waits e
deadlock_final d (tell p message m e _) = d.first_waits e
deadlock_final d (hear dd ds m e _) = ground arith
deadlock_final d (answer dd ds m r e _) = ground arith
deadlock_final d (wake p r rs _ e _) = ground arith
deadlock_final d (other st) = deadlock_final (turn_over d) st

-- A request that finds the page shared is not answered.
pub unanswered :
    (d : ProcInfo) (x : Machine) (p : ℕ)
    → d.page_num ≡ pos p
    → p < max_size
    → x.list_msi p ≡ shared
    → d.read_signal p ≡ 1
    → d.invalidate_signal p ≡ 0
    → x.reads_whole ≡ true
    → (m : Machine) × (handle d x ≡ some (m, none))
unfolding handle
unanswered d x p e h k r i w = elim (Bool-cases (d.bus_upgr p == 1 || d.bus_rdx p == 1)) [
  | inl stale ↦ (set_msi p invalid (record x { temp_data = d }), ground arith)
  | inr fresh ↦ (record x { temp_data = d }, ground arith)
]
