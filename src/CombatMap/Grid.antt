-- ===== src/CombatMap/Grid.antt =====
-- master/internal/combatmap/grid.go.
use layforge.Prelude.{
  ℕ, ◌+◌, ◌*◌, ◌<◌, ◌↔◌, ◌≤ℤ◌, pos, pos_part, get_elem?, in_bounds_iff, ◌≡◌, Bool, true, false, not,
  ◌&&◌, Option, none, some, List, arith, length, replicate, length-replicate, if◌then◌else◌,
  Position, pos_eq, in_bounds, cell_at, cell_set, cell_at-cell_set, cell_at_total, length-cell_set,
}

pub record Cell : Type 0 where
  pub blocks_movement : Bool
  pub blocks_los : Bool
  pub difficult_terrain : Bool

-- `Cell{}`, the zero value.
abbrev pub open_floor : Cell
open_floor = record { blocks_movement = false; blocks_los = false; difficult_terrain = false }

-- Go's `int` sides are natural numbers here: no caller makes a grid of a negative size.
pub record Grid : Type 0 where
  pub width : ℕ
  pub height : ℕ
  pub cells : List Cell

pub new_grid : ℕ → ℕ → Grid
new_grid width height = record {
  width = width;
  height = height;
  cells = replicate (width * height) open_floor;
}

unfoldable pub grid_in_bounds : Grid → Position → Bool
grid_in_bounds g p = in_bounds g.width g.height p

-- The pair (cell, ok) as an option.
unfoldable pub at : Grid → Position → Option Cell
at g p = cell_at g.width g.height g.cells p

unfoldable pub grid_set : Grid → Position → Cell → Grid
grid_set g p cell = record g { cells = cell_set g.width g.height g.cells p cell }

unfoldable pub is_open : Grid → Position → Bool
is_open g p = elim (at g p) [ none ↦ false | some cell ↦ not cell.blocks_movement ]

-- One cell for each position.
abbrev pub IsSized : Grid → Type 0
IsSized g = length g.cells ≡ g.width * g.height

pub new_grid-IsSized : (w h : ℕ) → IsSized (new_grid w h)
unfolding new_grid
new_grid-IsSized w h = length-replicate (w * h) open_floor

pub grid_set-IsSized : (g : Grid) (p : Position) (c : Cell) → IsSized g → IsSized (grid_set g p c)
unfolding grid_set
grid_set-IsSized g p c s = ground (arith, length-cell_set g.width g.height g.cells p c)

-- A write in bounds is what `At` reads back there; every other position, and every position after a
-- write out of bounds, reads as before.
pub at-grid_set :
    (g : Grid) (p q : Position) (c : Cell)
    → IsSized g
    → at (grid_set g p c) q ≡ (if grid_in_bounds g p && pos_eq p q then some c else at g q)
unfolding at grid_set grid_in_bounds
at-grid_set g p q c s = cell_at-cell_set g.width g.height g.cells s p q c

-- 0 <= x < width and 0 <= y < height.
abbrev pub InGrid : Grid → Position → Type 0
InGrid g p = (pos 0 ≤ℤ p.x) × (pos 0 ≤ℤ p.y) × (pos_part p.x < g.width) × (pos_part p.y < g.height)

-- On a sized grid `At` reads a cell at every position (x, y) with 0 <= x < width and
-- 0 <= y < height, the one with the number y * width + x, and reads none anywhere else; these are
-- the positions for which `InBounds` holds.
pub at_iff :
    (g : Grid) (p : Position)
    → IsSized g
    → ((grid_in_bounds g p ≡ true) ↔ InGrid g p)
      × (InGrid g p → (c : Cell) × (at g p ≡ some c))
      × ((c : Cell)
          → (at g p ≡ some c)
            ↔ (InGrid g p × (get_elem? g.cells (pos_part p.y * g.width + pos_part p.x) ≡ some c)))
unfolding at cell_at grid_in_bounds
at_iff g p s = (
  in_bounds_iff g.width g.height p,
  λ i. cell_at_total g.width g.height g.cells s p ((in_bounds_iff g.width g.height p).1 i),
  λ c. ground (arith, in_bounds_iff g.width g.height p),
)

pub is_open-in_bounds : (g : Grid) (p : Position) → is_open g p ≡ true → grid_in_bounds g p ≡ true
unfolding is_open at grid_in_bounds cell_at
is_open-in_bounds g p o = ground arith
