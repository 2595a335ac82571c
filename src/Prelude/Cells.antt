-- ===== src/Prelude/Cells.antt =====
-- A rectangle of `w * h` cells, row by row in one list, read and written at integer coordinates:
-- the shape that combatmap.Grid and dungeon.Level share.
use Prim.Native.Nat.{ℕ, ◌+◌, ◌*◌, ◌<◌}
use mathlib.Core.Path.{◌≡◌}
use mathlib.Core.Logic.{◌↔◌}
use mathlib.Core.Bool.{Bool, true, ◌&&◌}
use mathlib.Core.List.{List}
use mathlib.Core.Option.{Option, none, some}
use native.Mathlib.Omega.{arith}
use layforge.Prelude.Tests.{if◌then◌else◌}
use layforge.Prelude.Lists.{length, get_elem?, set, length-set, get_elem?-set_self}
use layforge.Prelude.Lists.{get_elem?-set_ne, get_elem?_total}
use layforge.Prelude.Int.{ℤ, pos, pos_part, ltb_ℤ, leb_ℤ, eqb_ℤ, eqb_ℤ_iff, ◌≤ℤ◌}

-- A pair of coordinates.
pub record Position : Type 0 where
  pub x : ℤ
  pub y : ℤ

abbrev pub pos_eq : Position → Position → Bool
pos_eq p q = eqb_ℤ p.x q.x && eqb_ℤ p.y q.y

pub pos_eq_iff : (p q : Position) → (pos_eq p q ≡ true) ↔ (p ≡ q)
pos_eq_iff p q = ground (arith, eqb_ℤ_iff p.x q.x, eqb_ℤ_iff p.y q.y)

module _ (w h : ℕ) where
  -- `x >= 0 && y >= 0 && x < w && y < h`
  unfoldable pub in_bounds : Position → Bool
  in_bounds p = leb_ℤ (pos 0) p.x && leb_ℤ (pos 0) p.y && ltb_ℤ p.x (pos w) && ltb_ℤ p.y (pos h)

  -- `y*Width + x`, of a position in bounds
  abbrev pub index : Position → ℕ
  index p = pos_part p.y * w + pos_part p.x

  -- `At`: the cell, or `none` out of bounds. (A slice that is too short would panic in bounds;
  -- `cell_at_total` rules that out.)
  unfoldable pub cell_at : {A : Type 0} → List A → Position → Option A
  cell_at cells p = if in_bounds p then get_elem? cells (index p) else none

  -- `Set`: a write out of bounds changes nothing.
  unfoldable pub cell_set : {A : Type 0} → List A → Position → A → List A
  cell_set cells p v = if in_bounds p then set cells (index p) v else cells

  pub in_bounds_iff :
      (p : Position)
      → (in_bounds p ≡ true)
        ↔ ((pos 0 ≤ℤ p.x) × (pos 0 ≤ℤ p.y) × (pos_part p.x < w) × (pos_part p.y < h))
  unfolding in_bounds
  in_bounds_iff p = ground arith

  pub index_lt : (p : Position) → in_bounds p ≡ true → index p < w * h
  index_lt p i = let (_, _, a, b) = (in_bounds_iff p).0 i in grind arith

  index_lt_of_row :
      (p q : Position) → pos_part p.x < w → pos_part p.y < pos_part q.y → index p < index q
  index_lt_of_row p q a b = grind arith

  index_inj : (p q : Position) → in_bounds p ≡ true → in_bounds q ≡ true → index p ≡ index q → p ≡ q
  index_inj p q i j e =
      let (a, b, c, d) = (in_bounds_iff p).0 i in
      let (a', b', c', d') = (in_bounds_iff q).0 j in
      let row : pos_part p.y ≡ pos_part q.y =
        ground (arith, index_lt_of_row p q c, index_lt_of_row q p c') in
      (pos_eq_iff p q).0 (ground arith)

  module _ {A : Type 0} (cells : List A) where
    pub length-cell_set : (p : Position) (v : A) → length (cell_set cells p v) ≡ length cells
    unfolding cell_set
    length-cell_set p v = ground (arith, length-set cells (index p) v)

    module _ (size : length cells ≡ w * h) where
      pub cell_at_total : (p : Position) → in_bounds p ≡ true → (a : A) × (cell_at cells p ≡ some a)
      unfolding cell_at
      cell_at_total p i =
          let (a, e) = get_elem?_total cells (index p) (omega (arith, index_lt p i)) in
          (a, ground arith)

      -- A write shows at its own position, if that is in bounds, and nowhere else.
      pub cell_at-cell_set :
          (p q : Position) (v : A)
          → cell_at (cell_set cells p v) q
            ≡ (if in_bounds p && pos_eq p q then some v else cell_at cells q)
      unfolding cell_at cell_set
      cell_at-cell_set p q v = ground (
        arith,
        pos_eq_iff p q,
        index_inj p q,
        index_lt p,
        get_elem?-set_self cells (index p) v,
        get_elem?-set_ne cells (index p) (index q) v,
      )
