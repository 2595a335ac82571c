-- ===== src/Dungeon/Shape.antt =====
-- master/internal/dungeon/generator.go: directions, rectangles and the changes to one level.
use layforge.Prelude.{
  ℕ, zero, suc, ◌/◌, Bool, true, false, not, ◌&&◌, List, [], ◌∷◌, if◌then◌else◌, ℤ, pos, negsuc,
  pos_part, ◌+ℤ◌, ◌-ℤ◌, ltb_ℤ, Position,
}
use layforge.Dungeon.Level.{TileType, floor, Level, level_set, walkable, carvable}

pub data RoomSize : Type 0 where
  average cramped huge : RoomSize

pub data Direction : Type 0 where
  north east south west : Direction

-- `delta`
unfoldable pub delta : Direction → Position
delta north = record { x = pos 0; y = negsuc 0 }
delta east = record { x = pos 1; y = pos 0 }
delta south = record { x = pos 0; y = pos 1 }
delta west = record { x = negsuc 0; y = pos 0 }

-- `(d + 3) % 4`
unfoldable pub left : Direction → Direction
left north = west
left east = north
left south = east
left west = south

-- `(d + 1) % 4`
unfoldable pub right : Direction → Direction
right north = east
right east = south
right south = west
right west = north

-- `(d + 2) % 4`
unfoldable pub around : Direction → Direction
around north = south
around east = west
around south = north
around west = east

unfoldable pub same_direction : Direction → Direction → Bool
same_direction north north = true
same_direction east east = true
same_direction south south = true
same_direction west west = true
same_direction _ _ = false

-- The next cell in a direction.
unfoldable pub ahead : Position → Direction → Position
unfolding delta
ahead p d = record { x = p.x +ℤ (delta d).x; y = p.y +ℤ (delta d).y }

unfoldable pub clamp : ℤ → ℤ → ℤ → ℤ
clamp v lo hi = if ltb_ℤ v lo then lo else if ltb_ℤ hi v then hi else v

-- `v / 2`, which rounds towards zero.
unfoldable pub half : ℤ → ℤ
half (pos n) = pos (n / 2)
half (negsuc n) = pos 0 -ℤ pos (suc n / 2)

-- The integers of a loop from `lo` on, `n` of them.
unfoldable pub ints_from : ℕ → ℤ → List ℤ
ints_from zero lo = []
ints_from (suc n) lo = lo ∷ ints_from n (lo +ℤ pos 1)

-- The integers of `for v := lo; v <= hi; v++`.
unfoldable pub ints : ℤ → ℤ → List ℤ
unfolding ints_from
ints lo hi = ints_from (pos_part (hi -ℤ lo +ℤ pos 1)) lo

-- `rect`, both corners inclusive.
pub record Rect : Type 0 where
  pub min_x : ℤ
  pub min_y : ℤ
  pub max_x : ℤ
  pub max_y : ℤ

unfoldable pub set_row : List ℤ → ℤ → TileType → Level → Level
set_row [] y t l = l
set_row (x ∷ xs) y t l = set_row xs y t (level_set l (record { x = x; y = y }) t)

unfoldable pub set_rows : List ℤ → List ℤ → TileType → Level → Level
unfolding set_row
set_rows xs [] t l = l
set_rows xs (y ∷ ys) t l = set_rows xs ys t (set_row xs y t l)

-- `fill`
unfoldable pub fill : Rect → TileType → Level → Level
unfolding set_rows ints
fill r t l = set_rows (ints r.min_x r.max_x) (ints r.min_y r.max_y) t l

-- The cell is carvable and was never carved: a cell that the loop of `placeableRect` passes.
unfoldable pub free : Level → Position → Bool
unfolding walkable carvable
free l p = carvable l p && not (walkable l p)

unfoldable pub row_free : List ℤ → ℤ → Level → Bool
unfolding free
row_free [] y l = true
row_free (x ∷ xs) y l = free l (record { x = x; y = y }) && row_free xs y l

unfoldable pub rows_free : List ℤ → List ℤ → Level → Bool
unfolding row_free
rows_free xs [] l = true
rows_free xs (y ∷ ys) l = row_free xs y l && rows_free xs ys l

-- The loops of `placeableRect`: the room and the ring of cells around it.
unfoldable pub rect_free : Rect → Level → Bool
unfolding rows_free ints
rect_free r l =
    rows_free (ints (r.min_x -ℤ pos 1) (r.max_x +ℤ pos 1))
      (ints (r.min_y -ℤ pos 1) (r.max_y +ℤ pos 1)) l

-- `carveCorridor`: where it stopped, whether it moved, and the level after it.
unfoldable pub carve_corridor : ℕ → Position → Direction → Bool → Level → Position × Bool × Level
unfolding ahead walkable carvable
carve_corridor zero p d moved l = (p, moved, l)
carve_corridor (suc n) p d moved l =
    let rest = carve_corridor n (ahead p d) d true (level_set l (ahead p d) floor) in
    if not (carvable l (ahead p d))
    then (p, moved, l)
    else if walkable l (ahead p d)
    then (ahead p d, true, l)
    else rest

-- The loops of `carveLanding` over the 3x3 cells around the landing.
unfoldable pub carve_landing_cells : Position → Level → Level
unfolding set_rows ints
carve_landing_cells p l =
    set_rows (ints (p.x -ℤ pos 1) (p.x +ℤ pos 1)) (ints (p.y -ℤ pos 1) (p.y +ℤ pos 1)) floor l
