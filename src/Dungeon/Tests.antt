-- ===== src/Dungeon/Tests.antt =====
-- The dungeon generator on a small level.
use layforge.Prelude.{
  ℕ, zero, suc, ◌≡◌, refl, subst, ◌∈◌, true, false, some, [], ◌∷◌, arith, get_elem?, ◌&&◌, pos,
  ◌+ℤ◌, ◌-ℤ◌, Position, in_bounds, cell_at, cell_set, Draws, counting, if◌then◌else◌,
}
use layforge.Region.{Linked, cell, Beside}
use layforge.Dungeon.Level.{
  floor, door, Stair, Level, tile_at, level_set, walkable, tile_walkable, carvable, level_in_bounds,
  IsSized,
}
use layforge.Dungeon.Shape.{
  average, Rect, east, ahead, delta, ints, ints_from, set_row, set_rows, fill, free, row_free,
  rows_free, rect_free, carve_corridor,
}
use layforge.Dungeon.Generator.{Options, budget_of, Generator, new_level}
use layforge.Dungeon.Generator.Rooms.{lay_out}
use layforge.Dungeon.Generator.Growth.{grow_passage, generate}
use layforge.Dungeon.Extends.{Extends, carve_corridor-Extends}
use layforge.Dungeon.Rects.{inside, fill_lem, SameSize}
use layforge.Dungeon.Rooms.{with_room, with_room-Extends, Fits, lay_out-Draws}
use layforge.Dungeon.Sound.{Joined, Sound}
use layforge.Dungeon.Passages.{grow_passage-Draws}
use layforge.Dungeon.Correct.{Delivers, generate-Draws}
use layforge.Dungeon.Landing.{new_level-IsSized, fill-Joined}

abbrev square : Rect
square = record { min_x = pos 1; min_y = pos 1; max_x = pos 2; max_y = pos 2 }

-- A small landing on a level of 8 by 8 cells.
abbrev small_level : Level
small_level = fill square floor (new_level 8 8 0)

fill_lem_example :
    SameSize (new_level 8 8 0) small_level
    × ((p : Position)
        → walkable small_level p ≡ (
            if level_in_bounds (new_level 8 8 0) p && inside square p
            then true
            else walkable (new_level 8 8 0) p))
unfolding tile_walkable
fill_lem_example = fill_lem square floor (new_level 8 8 0) (new_level-IsSized 8 8 0) refl

floor_walkable : tile_walkable floor ≡ true
unfolding tile_walkable
floor_walkable = refl

fill-Joined_example : Joined small_level
fill-Joined_example = fill-Joined 8 8 0 square floor floor_walkable refl refl

small_level-IsSized : IsSized small_level
small_level-IsSized =
    (fill_lem square floor (new_level 8 8 0) (new_level-IsSized 8 8 0) floor_walkable).0.sized

on_floor : walkable small_level (cell 2 2) ≡ true
unfolding walkable tile_walkable tile_at cell_at cell_set in_bounds level_set fill set_rows set_row
    ints ints_from new_level ◌+ℤ◌ ◌-ℤ◌
on_floor = refl

carve_corridor-Extends_example :
    Extends (cell 2 2) small_level (carve_corridor 3 (cell 2 2) east false small_level).2
    × Linked
        (walkable (carve_corridor 3 (cell 2 2) east false small_level).2)
        (cell 2 2)
        (carve_corridor 3 (cell 2 2) east false small_level).0
carve_corridor-Extends_example =
    carve_corridor-Extends 3 (cell 2 2) east false small_level small_level-IsSized on_floor

lay_out-Draws_example : Draws (Fits (cell 3 2) east 1 1) (lay_out counting (cell 3 2) east 1 1 0)
lay_out-Draws_example = lay_out-Draws counting (cell 3 2) east 1 1 0 (omega arith) (omega arith)

abbrev vault : Rect
vault = record { min_x = pos 4; min_y = pos 2; max_x = pos 4; max_y = pos 2 }

abbrev corner : Rect
corner = record { min_x = pos 1; min_y = pos 1; max_x = pos 1; max_y = pos 2 }

vault_free : rect_free vault small_level ≡ true
unfolding rect_free rows_free row_free free carvable walkable tile_walkable tile_at cell_at cell_set
    in_bounds level_set fill set_rows set_row ints ints_from new_level ◌+ℤ◌ ◌-ℤ◌
vault_free = refl

with_room-Extends_example :
    Extends (cell 2 2) small_level (with_room small_level (cell 3 2) door vault)
unfolding tile_walkable ahead delta inside Beside ◌+ℤ◌ ◌-ℤ◌
with_room-Extends_example =
    with_room-Extends (cell 2 2) (cell 3 2) (cell 4 2) door vault small_level small_level-IsSized
      on_floor (ground arith) refl vault_free
      (record { in_ring = refl; next_to = ground arith; in_room = refl })

small_level_stairs : small_level.stairs ≡ []
unfolding fill set_rows set_row ints ints_from new_level level_set ◌+ℤ◌ ◌-ℤ◌
small_level_stairs = refl

abbrev small_dungeon : Generator
small_dungeon = record { levels = small_level ∷ []; frontier = [] }

only_level : (i : ℕ) (l : Level) → get_elem? (small_level ∷ []) i ≡ some l → Joined l
only_level zero l e =
    subst Joined (ground arith) (fill-Joined 8 8 0 square floor floor_walkable refl refl)
only_level (suc zero) l e = absurd (ground arith)
only_level (suc (suc i)) l e = absurd (ground arith)

no_stairs :
    (i : ℕ) (l : Level) (st : Stair) → get_elem? (small_level ∷ []) i ≡ some l → st ∈ l.stairs → ⊥
no_stairs zero l st e n =
    let same : l ≡ small_level = ground arith in
    subst (λ z. st ∈ z) small_level_stairs (subst (λ (z : Level). st ∈ z.stairs) same n)
no_stairs (suc zero) l st e n = ground arith
no_stairs (suc (suc i)) l st e n = ground arith

small_dungeon-Sound : Sound 3 (cell 2 2) small_dungeon
small_dungeon-Sound = record {
  joined = only_level;
  rooted = tt;
  entered = (small_level, refl, on_floor);
  anchored = λ i l st e n. absurd (no_stairs i l st e n);
  paired = λ i l st e n. absurd (no_stairs i l st e n);
  arrived = λ i l e. absurd (ground arith);
  capped = omega arith;
}

grow_passage-Draws_example :
    Draws
      (Sound 3 (cell 2 2))
      (grow_passage counting (record { level = 0; at = cell 2 2; dir = east }) small_dungeon 7)
grow_passage-Draws_example =
    grow_passage-Draws counting 3 (cell 2 2) (record { level = 0; at = cell 2 2; dir = east })
      small_dungeon 7 small_dungeon-Sound (small_level, refl, on_floor)

abbrev options : Options
options = record {
  level_width = pos 30;
  level_height = pos 30;
  max_levels = pos 2;
  growth_budget = pos 0;
  room_size = average;
  has_rand = true;
}

default_budget : budget_of options ≡ 36
unfolding budget_of
default_budget = refl

generate-Draws_example : Draws (Delivers options) (generate counting options 7)
generate-Draws_example = generate-Draws counting options 7 (λ e. (refl, refl))
