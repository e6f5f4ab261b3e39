-- ===== src/Sockets/Connection/Rounds.antt =====
-- Programs at the two ends of a connection that a round of turns always brings nearer to their ends.
use mathlib.Core.Path.{subst}
use lkp.Sockets.Connection.{Turn, Both, client_turn, server_turn, play, play_turn, rounds}
use lkp.Prelude.{sym, ℕ, zero, suc, List, [], ◌∷◌, ◌++◌, length, ◌≤◌, ◌≡◌, refl, arith}

pub play-append : (ts us : List Turn) (b : Both) → play (ts ++ us) b ≡ play us (play ts b)
unfolding play
play-append [] us b = refl
play-append (t ∷ ts) us b = play-append ts us (play_turn t b)

-- `Before n` holds of the states with fewer than `n` turns left.
module _ (Before : ℕ → Both → Type 0)
    (turn-Before : (n : ℕ) (t : Turn) (b : Both) → Before n b → Before n (play_turn t b))
    (round-Before : (n k m : ℕ) (b : Both)
      → Before (suc (suc n)) b
      → Before (suc n) (play_turn (server_turn m) (play_turn (client_turn k) b))) where
  play-Before : (n : ℕ) (ts : List Turn) (b : Both) → Before n b → Before n (play ts b)
  unfolding play
  play-Before n [] b w = w
  play-Before n (t ∷ ts) b w = play-Before n ts (play_turn t b) (turn-Before n t b w)

  rounds-Before :
      (n : ℕ) (rs : List (ℕ × ℕ)) (b : Both)
      → n ≤ length rs
      → Before (suc n) b
      → Before 1 (play (rounds rs) b)
  unfolding play
  rounds-Before zero rs b h w = play-Before 1 (rounds rs) b w
  rounds-Before (suc n) [] b h w = absurd (omega arith)
  rounds-Before (suc n) ((k, m) ∷ rs) b h w =
      rounds-Before n rs (play_turn (server_turn m) (play_turn (client_turn k) b)) (omega arith)
        (round-Before n k m b w)

  -- Any turns, and rounds after them.
  pub ends-Before :
      (n : ℕ) (ts : List Turn) (rs : List (ℕ × ℕ)) (b : Both)
      → n ≤ length rs
      → Before (suc n) b
      → Before 1 (play (ts ++ rounds rs) b)
  ends-Before n ts rs b h w =
      subst (Before 1) (sym (play-append ts (rounds rs) b))
        (rounds-Before n rs (play ts b) h (play-Before (suc n) ts b w))
