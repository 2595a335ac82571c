-- ===== src/CombatMap/State.antt =====
-- master/internal/combatmap/state.go.
use layforge.Prelude.{
  ◌≡◌, refl, ap, inl, inr, ◌↔◌, Bool, true, false, String, str_eq, str_eq_iff, Option, none, some,
  List, [], ◌∷◌, arith, if◌then◌else◌, Bool-cases, ◌∈◌, ℤ, Position,
}
use layforge.CombatMap.Grid.{Grid}

pub record Token : Type 0 where
  pub token_id : String
  pub character_id : String
  pub x : ℤ
  pub y : ℤ

pub record State : Type 0 where
  pub grid : Grid
  pub tokens : List Token

pub new_state : Grid → State
new_state grid = record { grid = grid; tokens = [] }

-- The loop of `PlaceToken`: the first token of the same character is replaced.
unfoldable pub placed : Token → List Token → List Token
placed tok [] = tok ∷ []
placed tok (existing ∷ ts) =
    if str_eq existing.character_id tok.character_id then tok ∷ ts else existing ∷ placed tok ts

unfoldable pub place_token : State → Token → State
unfolding placed
place_token s tok = record s { tokens = placed tok s.tokens }

-- The pair (token, found) as an option.
unfoldable pub by_id : String → List Token → Option Token
by_id id [] = none
by_id id (t ∷ ts) = if str_eq t.token_id id then some t else by_id id ts

unfoldable pub token_by_id : State → String → Option Token
unfolding by_id
token_by_id s id = by_id id s.tokens

unfoldable pub by_character : String → List Token → Option Token
by_character id [] = none
by_character id (t ∷ ts) = if str_eq t.character_id id then some t else by_character id ts

unfoldable pub token_by_character_id : State → String → Option Token
unfolding by_character
token_by_character_id s id = by_character id s.tokens

-- The loop of `MoveToken`: the first token with the id moves.
unfoldable pub moved : String → ℤ → ℤ → List Token → List Token × Bool
moved id x y [] = ([], false)
moved id x y (t ∷ ts) =
    if str_eq t.token_id id
    then (record t { x = x; y = y } ∷ ts, true)
    else let (rest, found) = moved id x y ts in (t ∷ rest, found)

unfoldable pub move_token : State → String → ℤ → ℤ → State × Bool
unfolding moved
move_token s id x y =
    let (tokens, found) = moved id x y s.tokens in (record s { tokens = tokens }, found)

-- A visible set `map[Position]bool` is its membership test.
unfoldable pub visible_tokens : List Token → (Position → Bool) → List Token
visible_tokens [] visible = []
visible_tokens (t ∷ ts) visible =
    if visible (record { x = t.x; y = t.y })
    then t ∷ visible_tokens ts visible
    else visible_tokens ts visible

-- A character has at most one token.
unfoldable pub OnePerCharacter : List Token → Type 0
OnePerCharacter [] = Unit
OnePerCharacter (t ∷ ts) = (by_character t.character_id ts ≡ none) × OnePerCharacter ts

by_character-placed :
    (tok : Token) (id : String) (ts : List Token)
    → by_character id (placed tok ts)
      ≡ (if str_eq tok.character_id id then some tok else by_character id ts)
unfolding by_character placed
by_character-placed tok id [] = refl
by_character-placed tok id (t ∷ ts) = ground (
  arith,
  str_eq_iff tok.character_id id,
  str_eq_iff t.character_id id,
  str_eq_iff t.character_id tok.character_id,
  by_character-placed tok id ts,
)

placed-OnePerCharacter :
    (tok : Token) (ts : List Token) → OnePerCharacter ts → OnePerCharacter (placed tok ts)
unfolding OnePerCharacter placed by_character
placed-OnePerCharacter tok [] h = (refl, tt)
placed-OnePerCharacter tok (t ∷ ts) h = ground (
  arith,
  str_eq_iff t.character_id tok.character_id,
  str_eq_iff tok.character_id t.character_id,
  by_character-placed tok t.character_id ts,
  placed-OnePerCharacter tok ts h.1,
)

-- After `PlaceToken` the token's character has that token, every other character has the token it
-- had, the grid is the same, and no character has two tokens if none had.
pub place_token_lem :
    (s : State) (tok : Token)
    → ((id : String)
        → token_by_character_id (place_token s tok) id
          ≡ (if str_eq tok.character_id id then some tok else token_by_character_id s id))
      × ((place_token s tok).grid ≡ s.grid)
      × (OnePerCharacter s.tokens → OnePerCharacter (place_token s tok).tokens)
unfolding place_token token_by_character_id
place_token_lem s tok =
    (λ id. by_character-placed tok id s.tokens, refl, placed-OnePerCharacter tok s.tokens)

-- The position that a token has after a move of `id` to `(x, y)`.
abbrev pub after_move : String → ℤ → ℤ → String → Option Token → Option Token
after_move id x y other none = none
after_move id x y other (some t) =
    if str_eq id other then some (record t { x = x; y = y }) else some t

by_id-moved :
    (id other : String) (x y : ℤ) (ts : List Token)
    → by_id other (moved id x y ts).0 ≡ after_move id x y other (by_id other ts)
unfolding by_id moved
by_id-moved id other x y [] = refl
by_id-moved id other x y (t ∷ ts) = ground (
  arith,
  str_eq_iff t.token_id id,
  str_eq_iff t.token_id other,
  str_eq_iff id other,
  by_id-moved id other x y ts,
)

by_character-moved-none :
    (id c : String) (x y : ℤ) (ts : List Token)
    → by_character c ts ≡ none
    → by_character c (moved id x y ts).0 ≡ none
unfolding by_character moved
by_character-moved-none id c x y [] h = refl
by_character-moved-none id c x y (t ∷ ts) h = ground (arith, by_character-moved-none id c x y ts)

moved-OnePerCharacter :
    (id : String) (x y : ℤ) (ts : List Token)
    → OnePerCharacter ts
    → OnePerCharacter (moved id x y ts).0
unfolding OnePerCharacter moved
moved-OnePerCharacter id x y [] h = tt
moved-OnePerCharacter id x y (t ∷ ts) h = ground (
  arith,
  by_character-moved-none id t.character_id x y ts h.0,
  moved-OnePerCharacter id x y ts h.1,
)

moved_found :
    (id : String) (x y : ℤ) (ts : List Token)
    → ((moved id x y ts).1 ≡ false → (by_id id ts ≡ none) × ((moved id x y ts).0 ≡ ts))
      × ((moved id x y ts).1 ≡ true → (t : Token) × (by_id id ts ≡ some t))
unfolding moved by_id
moved_found id x y [] = (λ e. (refl, refl), λ e. cc)
moved_found id x y (t ∷ ts) = (
  λ e. ground (arith, (moved_found id x y ts).0),
  λ e. elim (Bool-cases (str_eq t.token_id id)) [
    | inl same ↦ (t, rw same)
    | inr other ↦ let (u, h) = (moved_found id x y ts).1 (ground arith) in (u, rw other h)
  ],
)

-- `MoveToken` moves the token with the id, and no other; it returns false exactly for an unknown id,
-- and then changes nothing. The grid stays, and so does the rule of one token for each character.
pub move_token_lem :
    (s : State) (id : String) (x y : ℤ)
    → let (s', found) = move_token s id x y in
      ((other : String) → token_by_id s' other ≡ after_move id x y other (token_by_id s other))
      × (found ≡ false → (token_by_id s id ≡ none) × (s' ≡ s))
      × (found ≡ true → (t : Token) × (token_by_id s id ≡ some t))
      × (s'.grid ≡ s.grid)
      × (OnePerCharacter s.tokens → OnePerCharacter s'.tokens)
unfolding move_token token_by_id
move_token_lem s id x y = (
  λ other. by_id-moved id other x y s.tokens,
  λ e. (((moved_found id x y s.tokens).0 e).0, ground (arith, (moved_found id x y s.tokens).0 e)),
  (moved_found id x y s.tokens).1,
  refl,
  moved-OnePerCharacter id x y s.tokens,
)

-- A recipient is shown exactly the tokens that stand on a visible cell.
pub mem-visible_tokens :
    (t : Token) (ts : List Token) (visible : Position → Bool)
    → (t ∈ visible_tokens ts visible) ↔ ((t ∈ ts) × (visible (record { x = t.x; y = t.y }) ≡ true))
unfolding visible_tokens
mem-visible_tokens t [] visible = (absurd, λ h. h.0)
mem-visible_tokens t (u ∷ ts) visible = ground (
  arith,
  mem-visible_tokens t ts visible,
  ap (λ (v : Token). visible (record { x = v.x; y = v.y })) {x = t} {y = u},
)
