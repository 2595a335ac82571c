-- ===== src/Dungeon/Landing.antt =====
-- master/internal/dungeon/generator.go: the landing on a new level.
use layforge.Prelude.{
  ℕ, ◌*◌, ◌≡◌, refl, sym, Bool, true, false, ◌&&◌, arith, if◌then◌else◌, ℤ, pos, ◌-ℤ◌, -ℤ_parts,
  ltb_ℤ, leb_ℤ, Position, in_bounds, cell_at, index, index_lt, length-replicate,
  get_elem?-replicate,
}
use layforge.Dungeon.Level.{
  TileType, rock, tile_walkable, level_in_bounds, tile_at, walkable, IsSized,
}
use layforge.Dungeon.Shape.{Rect, fill}
use layforge.Dungeon.Generator.{new_level}
use layforge.Dungeon.Rects.{inside, fill_lem}
use layforge.Dungeon.Rooms.{rect-Linked}
use layforge.Dungeon.Sound.{Joined}

pub new_level-IsSized : (w h d : ℕ) → IsSized (new_level w h d)
unfolding new_level
new_level-IsSized w h d = length-replicate (w * h) rock

pub walkable-new_level : (w h d : ℕ) (p : Position) → walkable (new_level w h d) p ≡ false
unfolding new_level walkable tile_at cell_at tile_walkable
walkable-new_level w h d p =
    ground (arith, get_elem?-replicate (w * h) (index w h p) rock, index_lt w h p)

-- The part of a rectangle within the level.
abbrev clipped : ℕ → ℕ → Rect → Rect
clipped w h r = record r {
  max_x = if ltb_ℤ r.max_x (pos w) then r.max_x else pos w -ℤ pos 1;
  max_y = if ltb_ℤ r.max_y (pos h) then r.max_y else pos h -ℤ pos 1;
}

upper :
    (m x : ℤ) (w : ℕ)
    → (ltb_ℤ x (pos w) && leb_ℤ x m) ≡ leb_ℤ x (if ltb_ℤ m (pos w) then m else pos w -ℤ pos 1)
upper m x w = ground (arith, -ℤ_parts (pos w) (pos 1))

lower : (m x : ℤ) → leb_ℤ (pos 0) m ≡ true → leb_ℤ m x ≡ (leb_ℤ (pos 0) x && leb_ℤ m x)
lower m x h = ground arith

and_shuffle :
    (x y u v a b c d : Bool)
    → (((x && y) && u) && v && (((x && a) && b) && ((y && c) && d)))
      ≡ (((x && a) && (u && b)) && ((y && c) && (v && d)))
and_shuffle false y u v a b c d = refl
and_shuffle true false u v a b c d = ground arith
and_shuffle true true false v a b c d = ground arith
and_shuffle true true true v a b c d = ground arith

inside-clipped :
    (w h d : ℕ) (r : Rect) (p : Position)
    → leb_ℤ (pos 0) r.min_x ≡ true
    → leb_ℤ (pos 0) r.min_y ≡ true
    → (level_in_bounds (new_level w h d) p && inside r p) ≡ inside (clipped w h r) p
unfolding inside level_in_bounds in_bounds new_level
inside-clipped w h d r p a b =
    rw
      (
        sym (upper r.max_x p.x w),
        sym (upper r.max_y p.y h),
        lower r.min_x p.x a,
        lower r.min_y p.y b,
      )
      (and_shuffle (leb_ℤ (pos 0) p.x) (leb_ℤ (pos 0) p.y) (ltb_ℤ p.x (pos w)) (ltb_ℤ p.y (pos h))
        (leb_ℤ r.min_x p.x) (leb_ℤ p.x r.max_x) (leb_ℤ r.min_y p.y) (leb_ℤ p.y r.max_y))

-- Once a rectangle without negative coordinates is filled with a walkable tile on a new level, any
-- two cells to walk on are linked, whatever part of it lies within the level.
pub fill-Joined :
    (w h d : ℕ) (r : Rect) (t : TileType)
    → tile_walkable t ≡ true
    → leb_ℤ (pos 0) r.min_x ≡ true
    → leb_ℤ (pos 0) r.min_y ≡ true
    → Joined (fill r t (new_level w h d))
fill-Joined w h d r t tw a b = record {
  sized = (fill_lem r t (new_level w h d) (new_level-IsSized w h d) tw).0.sized;
  linked = λ p q v u.
      rect-Linked (walkable (fill r t (new_level w h d))) (clipped w h r) p q a b filled
        (in_rect p v) (in_rect q u);
}
  where
    at :
        (p : Position)
        → walkable (fill r t (new_level w h d)) p ≡ (
            if level_in_bounds (new_level w h d) p && inside r p
            then true
            else walkable (new_level w h d) p)
    at = (fill_lem r t (new_level w h d) (new_level-IsSized w h d) tw).1

    filled :
        (p : Position)
        → inside (clipped w h r) p ≡ true
        → walkable (fill r t (new_level w h d)) p ≡ true
    filled p i = ground (arith, at p, inside-clipped w h d r p a b)

    in_rect :
        (p : Position)
        → walkable (fill r t (new_level w h d)) p ≡ true
        → inside (clipped w h r) p ≡ true
    in_rect p v = ground (arith, at p, walkable-new_level w h d p, inside-clipped w h d r p a b)
