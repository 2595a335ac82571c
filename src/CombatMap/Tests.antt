-- ===== src/CombatMap/Tests.antt =====
-- Runs on a small map, and the theorems of the package at concrete inputs.
use layforge.Prelude.{
  get_elem?, ◌+◌, ◌*◌, ◌↔◌, ◌≡◌, refl, inl, true, some, [], ◌∷◌, arith, pos, ◌+ℤ◌, Draws, counting,
  ◌∈◌, lookup, insert, position_eq, in_bounds, cell_at,
}
use layforge.Region.{cell}
use layforge.CombatMap.Grid.{
  open_floor, Grid, at, grid_set, grid_in_bounds, is_open, at-grid_set, at_iff, InGrid, Cell,
}
use layforge.CombatMap.Movement.{moves, rejected, validate_move}
use layforge.CombatMap.Movement.Rounds.{Decides}
use layforge.CombatMap.Movement.Correct.{validate_move-Decides}
use layforge.CombatMap.State.{
  Token, State, place_token, token_by_id, token_by_character_id, move_token, visible_tokens,
  place_token_lem, move_token_lem, mem-visible_tokens,
}
use layforge.CombatMap.Generator.{wall, GenerateOptions, generate_rooms_and_corridors}
use layforge.CombatMap.Generator.Correct.{GoodMap, generate_rooms_and_corridors_lem}

-- . # .
-- . . .
abbrev yard : Grid
yard = record {
  width = 3;
  height = 2;
  cells = open_floor ∷ wall ∷ open_floor ∷ open_floor ∷ open_floor ∷ open_floor ∷ [];
}

around_the_wall : validate_move (some yard) (cell 0 0) (cell 2 0) (pos 30) ≡ moves 2
unfolding validate_move is_open grid_in_bounds at cell_at in_bounds ◌+ℤ◌ lookup insert
around_the_wall = refl

too_slow : validate_move (some yard) (cell 0 0) (cell 2 0) (pos 9) ≡ rejected
unfolding validate_move is_open grid_in_bounds at cell_at in_bounds ◌+ℤ◌ lookup insert
too_slow = refl

validate_move-Decides_example :
    Decides yard (cell 0 0) (cell 2 0) 6 (validate_move (some yard) (cell 0 0) (cell 2 0) (pos 30))
unfolding is_open grid_in_bounds at cell_at in_bounds
validate_move-Decides_example =
    (validate_move-Decides yard (cell 0 0) (cell 2 0) (pos 30)).0 refl refl

at-grid_set_example : at (grid_set yard (cell 1 0) open_floor) (cell 1 0) ≡ some open_floor
unfolding grid_in_bounds in_bounds
at-grid_set_example = at-grid_set yard (cell 1 0) (cell 1 0) open_floor refl

at_iff_example :
    ((grid_in_bounds yard (cell 1 0) ≡ true) ↔ InGrid yard (cell 1 0))
    × (InGrid yard (cell 1 0) → (c : Cell) × (at yard (cell 1 0) ≡ some c))
    × ((c : Cell)
        → (at yard (cell 1 0) ≡ some c)
          ↔ (InGrid yard (cell 1 0) × (get_elem? yard.cells (0 * yard.width + 1) ≡ some c)))
at_iff_example = at_iff yard (cell 1 0) refl

abbrev hero : Token
hero = record { token_id = "t1"; character_id = "hero"; x = pos 0; y = pos 0 }

abbrev scene : State
scene = record { grid = yard; tokens = hero ∷ [] }

place_token_lem_example :
    token_by_character_id (place_token scene (record hero { token_id = "t2" })) "hero"
    ≡ some (record hero { token_id = "t2" })
place_token_lem_example = (place_token_lem scene (record hero { token_id = "t2" })).0 "hero"

move_token_lem_example :
    token_by_id (move_token scene "t1" (pos 2) (pos 1)).0 "t1"
    ≡ some (record hero { x = pos 2; y = pos 1 })
unfolding token_by_id
move_token_lem_example = (move_token_lem scene "t1" (pos 2) (pos 1)).0 "t1"

mem-visible_tokens_example : hero ∈ visible_tokens scene.tokens (λ p. true)
mem-visible_tokens_example = (mem-visible_tokens hero scene.tokens (λ p. true)).1 (inl refl, refl)

abbrev small_request : GenerateOptions
small_request = record {
  width = pos 8;
  height = pos 7;
  room_attempts = pos 3;
  min_room_size = pos 1;
  max_room_size = pos 2;
  has_rand = true;
}

generate_rooms_and_corridors_lem_example :
    Draws
      (λ o. (g : Grid) × (o ≡ some g) × GoodMap 8 7 g)
      (generate_rooms_and_corridors counting small_request 5)
generate_rooms_and_corridors_lem_example =
    (generate_rooms_and_corridors_lem counting small_request 5).0
      (omega arith, omega arith, omega arith, omega arith, refl)
