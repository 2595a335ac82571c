-- ===== src/Dungeon/Level.antt =====
-- master/internal/dungeon/dungeon.go: tiles, features, stairs and levels.
use layforge.Prelude.{
  ℕ, ◌*◌, ◌≡◌, Bool, true, false, ◌&&◌, Option, none, some, List, arith, length, if◌then◌else◌, pos,
  ltb_ℤ, leb_ℤ, ◌-ℤ◌, Position, pos_eq, in_bounds, cell_at, cell_set, cell_at-cell_set,
  length-cell_set,
}

pub data TileType : Type 0 where
  rock floor door stairs_up stairs_down secret_door : TileType

-- `TileType.Walkable`.
unfoldable pub tile_walkable : TileType → Bool
tile_walkable rock = false
tile_walkable floor = true
tile_walkable door = true
tile_walkable stairs_up = true
tile_walkable stairs_down = true
tile_walkable secret_door = true

-- `TileType.BlocksLOS`.
unfoldable pub blocks_los : TileType → Bool
blocks_los rock = true
blocks_los secret_door = true
blocks_los _ = false

-- `TileType.IsSecret`.
unfoldable pub is_secret : TileType → Bool
is_secret secret_door = true
is_secret _ = false

-- `FeatureNone` is never stored, so it has no constructor.
pub data FeatureKind : Type 0 where
  fountain statue shrine chest : FeatureKind

pub record Feature : Type 0 where
  pub at : Position
  pub kind : FeatureKind

-- `StairDirUnspecified` is never stored.
pub data StairDir : Type 0 where
  up down : StairDir

pub record Stair : Type 0 where
  pub at : Position
  pub dir : StairDir
  pub to_level : ℕ

pub record Level : Type 0 where
  pub depth : ℕ
  pub width : ℕ
  pub height : ℕ
  pub tiles : List TileType
  pub features : List Feature
  pub stairs : List Stair

unfoldable pub level_in_bounds : Level → Position → Bool
level_in_bounds l p = in_bounds l.width l.height p

-- At least one cell from every edge.
unfoldable pub carvable : Level → Position → Bool
carvable l p =
    leb_ℤ (pos 1) p.x
    && leb_ℤ (pos 1) p.y
    && ltb_ℤ p.x (pos l.width -ℤ pos 1)
    && ltb_ℤ p.y (pos l.height -ℤ pos 1)

-- The pair (tile, ok) as an option.
unfoldable pub tile_at : Level → Position → Option TileType
tile_at l p = cell_at l.width l.height l.tiles p

unfoldable pub level_set : Level → Position → TileType → Level
level_set l p t = record l { tiles = cell_set l.width l.height l.tiles p t }

-- `Level.Walkable`.
unfoldable pub walkable : Level → Position → Bool
unfolding tile_walkable
walkable l p = elim (tile_at l p) [ none ↦ false | some t ↦ tile_walkable t ]

pub record Dungeon : Type 0 where
  pub levels : List Level
  pub entrance : Position

abbrev pub IsSized : Level → Type 0
IsSized l = length l.tiles ≡ l.width * l.height

pub level_set-IsSized :
    (l : Level) (p : Position) (t : TileType) → IsSized l → IsSized (level_set l p t)
unfolding level_set
level_set-IsSized l p t s = ground (arith, length-cell_set l.width l.height l.tiles p t)

-- A tile written in bounds is what `At` reads back there; every other position, and every position
-- after a write out of bounds, reads as before.
pub tile_at-level_set :
    (l : Level) (p q : Position) (t : TileType)
    → IsSized l
    → tile_at (level_set l p t) q
      ≡ (if level_in_bounds l p && pos_eq p q then some t else tile_at l q)
unfolding tile_at level_set level_in_bounds
tile_at-level_set l p q t s = cell_at-cell_set l.width l.height l.tiles s p q t

pub walkable-in_bounds :
    (l : Level) (p : Position) → walkable l p ≡ true → level_in_bounds l p ≡ true
unfolding walkable tile_at level_in_bounds cell_at
walkable-in_bounds l p o = ground arith

pub carvable-in_bounds :
    (l : Level) (p : Position) → carvable l p ≡ true → level_in_bounds l p ≡ true
unfolding carvable level_in_bounds in_bounds ◌-ℤ◌
carvable-in_bounds l p o = ground arith
