-- ===== src/Proj2/Store/Tokens.antt =====
-- The tokens of parse_params in Project_2/submission_new/proj2.c.
use lkp.Proj2.Store.{in_first, strsep}
use lkp.Prelude.{◌++◌, arith, refl, [], ◌≢◌, ◌≡◌, ◌∷◌, List, ℕ}

-- The tokens with commas between them.
unfoldable pub join : List (List ℕ) → List ℕ
join [] = []
join (token ∷ []) = token
join (token ∷ next ∷ tokens) = token ++ b',' ∷ join (next ∷ tokens)

abbrev HasNoComma : List ℕ → Type 0
HasNoComma [] = Unit {0}
HasNoComma (c ∷ text) = (c ≢ b',') × HasNoComma text

abbrev pub AreTokens : List (List ℕ) → Type 0
AreTokens [] = Unit {0}
AreTokens (token ∷ tokens) = HasNoComma token × AreTokens tokens

abbrev IsNonEmpty : List (List ℕ) → Type 0
IsNonEmpty [] = ⊥
IsNonEmpty (token ∷ tokens) = Unit {0}

in_first-IsNonEmpty : (c : ℕ) (tokens : List (List ℕ)) → IsNonEmpty (in_first c tokens)
in_first-IsNonEmpty c [] = tt
in_first-IsNonEmpty c (token ∷ tokens) = tt

strsep-IsNonEmpty : (text : List ℕ) → IsNonEmpty (strsep text)
unfolding strsep
strsep-IsNonEmpty [] = tt
strsep-IsNonEmpty (c ∷ text) = ground (arith, in_first-IsNonEmpty c (strsep text))

join-in_first : (c : ℕ) (tokens : List (List ℕ)) → join (in_first c tokens) ≡ c ∷ join tokens
unfolding join
join-in_first c [] = refl
join-in_first c (token ∷ []) = refl
join-in_first c (token ∷ next ∷ tokens) = refl

join-separate :
    (tokens : List (List ℕ)) → IsNonEmpty tokens → join ([] ∷ tokens) ≡ b',' ∷ join tokens
unfolding join
join-separate [] h = absurd h
join-separate (token ∷ tokens) h = refl

join-strsep : (text : List ℕ) → join (strsep text) ≡ text
unfolding join strsep
join-strsep [] = refl
join-strsep (c ∷ text) = ground (
  arith,
  join-in_first c (strsep text),
  join-separate (strsep text) (strsep-IsNonEmpty text),
  join-strsep text,
)

in_first-AreTokens :
    (c : ℕ) (tokens : List (List ℕ)) → c ≢ b',' → AreTokens tokens → AreTokens (in_first c tokens)
in_first-AreTokens c [] n h = ((n, tt), tt)
in_first-AreTokens c (token ∷ tokens) n h = ((n, h.0), h.1)

strsep-AreTokens : (text : List ℕ) → AreTokens (strsep text)
unfolding strsep
strsep-AreTokens [] = (tt, tt)
strsep-AreTokens (c ∷ text) =
    ground (arith, in_first-AreTokens c (strsep text), strsep-AreTokens text)

-- The tokens hold no comma, and the text is the tokens with commas between them.
pub strsep-tokens : (text : List ℕ) → (join (strsep text) ≡ text) × AreTokens (strsep text)
strsep-tokens text = (join-strsep text, strsep-AreTokens text)
