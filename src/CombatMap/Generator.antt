-- ===== src/CombatMap/Generator.antt =====
-- master/internal/combatmap/generator.go.
pub mod Carve
pub mod Rooms
pub mod Placing
pub mod Steps
pub mod Correct
use package.layforge.Prelude.{
  ℕ, zero, suc, ◌+◌, ◌-◌, ◌*◌, ◌/◌, ◌≤◌, ◌<◌, ◌≡◌, Bool, true, false, not, ◌&&◌, ◌||◌, Option, none,
  some, List, [], ◌∷◌, ltb, leb, ◌==◌, if◌then◌else◌, replicate, ℤ, pos, pos_part, leb_ℤ, Position,
  Rand, Draw, ◌>>=◌, pure, draw,
}
use package.layforge.Region.{cell}
use package.layforge.CombatMap.Grid.{Cell, open_floor, Grid, grid_set}

-- `rand` is the field Rand, `none` for nil.
pub record GenerateOptions : Type 0 where
  pub width : ℤ
  pub height : ℤ
  pub room_attempts : ℤ
  pub min_room_size : ℤ
  pub max_room_size : ℤ
  pub has_rand : Bool

-- The guard at the top of `GenerateRoomsAndCorridors`.
pub malformed : GenerateOptions → Bool
malformed opts =
    leb_ℤ opts.width (pos 0)
    || leb_ℤ opts.height (pos 0)
    || leb_ℤ opts.room_attempts (pos 0)
    || leb_ℤ opts.max_room_size (pos 0)
    || not opts.has_rand

-- `minSize`: at least 1, and at most the largest size.
pub smallest : GenerateOptions → ℕ
smallest opts =
    let asked = if leb_ℤ opts.min_room_size (pos 0) then 1 else pos_part opts.min_room_size in
    if ltb (pos_part opts.max_room_size) asked then pos_part opts.max_room_size else asked

-- Rooms are placed at positive coordinates, so they are natural numbers.
pub record Room : Type 0 where
  pub x : ℕ
  pub y : ℕ
  pub w : ℕ
  pub h : ℕ

abbrev pub center : Room → ℕ × ℕ
center r = (r.x + r.w / 2, r.y + r.h / 2)

-- `r.x-margin < other.x+other.w` and so on, with the margin on the side where it is added.
pub overlaps : Room → Room → ℕ → Bool
overlaps r other margin =
    ltb r.x (other.x + other.w + margin)
    && ltb other.x (r.x + r.w + margin)
    && ltb r.y (other.y + other.h + margin)
    && ltb other.y (r.y + r.h + margin)

abbrev pub wall : Cell
wall = record { blocks_movement = true; blocks_los = true; difficult_terrain = false }

-- The inner loop of `carveRoom` and the loop of `carveHorizontal`: `n` cells from `x` on.
pub carve_row : ℕ → ℕ → ℕ → Grid → Grid
carve_row zero x y g = g
carve_row (suc n) x y g = carve_row n (x + 1) y (grid_set g (cell x y) open_floor)

-- The loop of `carveVertical`.
pub carve_column : ℕ → ℕ → ℕ → Grid → Grid
carve_column zero x y g = g
carve_column (suc n) x y g = carve_column n x (y + 1) (grid_set g (cell x y) open_floor)

-- The outer loop of `carveRoom`: `n` rows from `y` on.
pub carve_rows : ℕ → ℕ → ℕ → ℕ → Grid → Grid
unfolding carve_row
carve_rows zero x y w g = g
carve_rows (suc n) x y w g = carve_rows n x (y + 1) w (carve_row w x y g)

pub carve_room : Grid → Room → Grid
unfolding carve_rows
carve_room g r = carve_rows r.h r.x r.y r.w g

-- The ends are swapped if they are out of order.
pub carve_horizontal : Grid → ℕ → ℕ → ℕ → Grid
unfolding carve_row
carve_horizontal g x1 x2 y =
    if ltb x2 x1 then carve_row (x1 - x2 + 1) x2 y g else carve_row (x2 - x1 + 1) x1 y g

pub carve_vertical : Grid → ℕ → ℕ → ℕ → Grid
unfolding carve_column
carve_vertical g y1 y2 x =
    if ltb y2 y1 then carve_column (y1 - y2 + 1) x y2 g else carve_column (y2 - y1 + 1) x y1 g

-- Either leg of the corridor comes first.
pub carve_corridor_by : Bool → Grid → Room → Room → Grid
unfolding carve_horizontal carve_vertical
carve_corridor_by horizontal_first g from to =
    let (x1, y1) = center from in
    let (x2, y2) = center to in
    if horizontal_first
    then carve_vertical (carve_horizontal g x1 x2 y1) y1 y2 x2
    else carve_horizontal (carve_vertical g y1 y2 x1) x1 x2 y2

pub any_overlaps : Room → List Room → Bool
unfolding overlaps
any_overlaps candidate [] = false
any_overlaps candidate (other ∷ rooms) = overlaps candidate other 1 || any_overlaps candidate rooms

-- The local variables `g` and `placed`, the newest room first.
pub record Plan : Type 0 where
  pub grid : Grid
  pub placed : List Room

module _ (rand : Rand) where
  pub carve_corridor : Grid → Room → Room → Draw rand.Source Grid
  unfolding carve_corridor_by draw
  carve_corridor g from to = do coin ← draw rand 2; pure (carve_corridor_by (coin == 0) g from to)

  -- `if len(placed) > 0 { carveCorridor(…) }` on the grid with the room carved.
  pub connect : Grid → List Room → Room → Draw rand.Source Grid
  unfolding carve_corridor
  connect g [] candidate = pure g
  connect g (previous ∷ rooms) candidate = carve_corridor g previous candidate

  module _ (width height min_size max_size : ℕ) where
    pub place : Plan → Room → Draw rand.Source Plan
    unfolding any_overlaps connect carve_room
    place p candidate = if any_overlaps candidate p.placed then pure p else do
      g ← connect (carve_room p.grid candidate) p.placed candidate
      pure (record { grid = g; placed = candidate ∷ p.placed })

    -- The rest of a round, once the room's size is drawn.
    pub attempt_sized : Plan → ℕ → ℕ → Draw rand.Source Plan
    unfolding place draw
    attempt_sized p w h = if leb (width - 1) w || leb (height - 1) h then pure p else do
      dx ← draw rand (width - w - 1)
      dy ← draw rand (height - h - 1)
      place p (record { x = 1 + dx; y = 1 + dy; w = w; h = h })

    -- One round of the loop over `RoomAttempts`.
    pub attempt : Plan → Draw rand.Source Plan
    unfolding attempt_sized
    attempt p = do
      dw ← draw rand (max_size - min_size + 1)
      dh ← draw rand (max_size - min_size + 1)
      attempt_sized p (min_size + dw) (min_size + dh)

    pub attempts : ℕ → Plan → Draw rand.Source Plan
    unfolding attempt
    attempts zero p = pure p
    attempts (suc n) p = do p' ← attempt p; attempts n p'

  -- All walls.
  pub solid : ℕ → ℕ → Grid
  solid width height = record {
    width = width;
    height = height;
    cells = replicate (width * height) wall;
  }

  -- `none` is the nil grid of a malformed request.
  pub generate_rooms_and_corridors : GenerateOptions → Draw rand.Source (Option Grid)
  unfolding attempts solid malformed smallest
  generate_rooms_and_corridors opts = if malformed opts then pure none else do
    p ←
        attempts (pos_part opts.width) (pos_part opts.height) (smallest opts)
          (pos_part opts.max_room_size) (pos_part opts.room_attempts)
          (record { grid = solid (pos_part opts.width) (pos_part opts.height); placed = [] })
    pure (some p.grid)
