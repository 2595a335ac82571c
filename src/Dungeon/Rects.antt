-- ===== src/Dungeon/Rects.antt =====
-- master/internal/dungeon/generator.go: what filling a rectangle does to a level.
use layforge.Prelude.{
  ℕ, zero, suc, ◌≡◌, refl, ◌∙◌, Bool, true, false, ◌&&◌, List, [], ◌∷◌, arith, if◌then◌else◌, ℤ,
  pos, pos_part, ◌+ℤ◌, ◌-ℤ◌, +ℤ_parts, -ℤ_parts, ltb_ℤ, leb_ℤ, eqb_ℤ, Position, pos_eq, pos_eq_iff,
}
use layforge.Dungeon.Level.{
  TileType, tile_walkable, Level, level_in_bounds, level_set, walkable, IsSized, level_set-IsSized,
  tile_at-level_set,
}
use layforge.Dungeon.Shape.{Rect, ints_from, ints, set_row, set_rows, fill}

abbrev pub has_int : ℤ → List ℤ → Bool
has_int x [] = false
has_int x (y ∷ ys) = if eqb_ℤ y x then true else has_int x ys

pub has_int-ints_from :
    (n : ℕ) (lo x : ℤ) → has_int x (ints_from n lo) ≡ (leb_ℤ lo x && ltb_ℤ x (lo +ℤ pos n))
unfolding ints_from
has_int-ints_from zero lo x = ground (arith, +ℤ_parts lo (pos 0))
has_int-ints_from (suc n) lo x = ground (
  arith,
  has_int-ints_from n (lo +ℤ pos 1) x,
  +ℤ_parts lo (pos 1),
  +ℤ_parts lo (pos (suc n)),
  +ℤ_parts (lo +ℤ pos 1) (pos n),
)

-- A loop from `lo` to `hi` meets exactly the integers between them.
pub has_int-ints : (lo hi x : ℤ) → has_int x (ints lo hi) ≡ (leb_ℤ lo x && leb_ℤ x hi)
unfolding ints
has_int-ints lo hi x = ground (
  arith,
  has_int-ints_from (pos_part (hi -ℤ lo +ℤ pos 1)) lo x,
  +ℤ_parts lo (pos (pos_part (hi -ℤ lo +ℤ pos 1))),
  -ℤ_parts hi lo,
  +ℤ_parts (hi -ℤ lo) (pos 1),
)

-- The size of a level and its stairs stay, and its tiles fill it.
pub record SameSize (l l' : Level) : Type 0 where
  pub width : l'.width ≡ l.width
  pub height : l'.height ≡ l.height
  pub stairs : l'.stairs ≡ l.stairs
  pub sized : IsSized l'

level_set-SameSize :
    (l : Level) (q : Position) (t : TileType) → IsSized l → SameSize l (level_set l q t)
unfolding level_set
level_set-SameSize l q t s = record {
  width = refl;
  height = refl;
  stairs = refl;
  sized = level_set-IsSized l q t s;
}

SameSize-trans : (l l' l'' : Level) → SameSize l l' → SameSize l' l'' → SameSize l l''
SameSize-trans l l' l'' e f = record {
  width = f.width ∙ e.width;
  height = f.height ∙ e.height;
  stairs = f.stairs ∙ e.stairs;
  sized = f.sized;
}

set_row-SameSize :
    (xs : List ℤ) (y : ℤ) (t : TileType) (l : Level) → IsSized l → SameSize l (set_row xs y t l)
unfolding set_row
set_row-SameSize [] y t l s = record { width = refl; height = refl; stairs = refl; sized = s }
set_row-SameSize (x ∷ xs) y t l s =
    let e = level_set-SameSize l (record { x = x; y = y }) t s in
    SameSize-trans l (level_set l (record { x = x; y = y }) t) _ e
      (set_row-SameSize xs y t (level_set l (record { x = x; y = y }) t) e.sized)

set_rows-SameSize :
    (xs ys : List ℤ) (t : TileType) (l : Level) → IsSized l → SameSize l (set_rows xs ys t l)
unfolding set_rows
set_rows-SameSize xs [] t l s = record { width = refl; height = refl; stairs = refl; sized = s }
set_rows-SameSize xs (y ∷ ys) t l s =
    let e = set_row-SameSize xs y t l s in
    SameSize-trans l (set_row xs y t l) _ e (set_rows-SameSize xs ys t (set_row xs y t l) e.sized)

-- In the cells written, those in bounds become walkable; the others stay as they are.
walkable-level_set_any :
    (l : Level) (q p : Position) (t : TileType)
    → IsSized l
    → tile_walkable t ≡ true
    → walkable (level_set l q t) p
      ≡ (if level_in_bounds l p && pos_eq q p then true else walkable l p)
unfolding walkable
walkable-level_set_any l q p t s w = ground (arith, tile_at-level_set l q p t s, pos_eq_iff q p)

in_bounds_same :
    (l l' : Level) (p : Position) → SameSize l l' → level_in_bounds l' p ≡ level_in_bounds l p
unfolding level_in_bounds
in_bounds_same l l' p e = rw (e.width, e.height) refl

walkable-set_row :
    (xs : List ℤ) (y : ℤ) (t : TileType) (l : Level) (p : Position)
    → IsSized l
    → tile_walkable t ≡ true
    → walkable (set_row xs y t l) p
      ≡ (if level_in_bounds l p && has_int p.x xs && eqb_ℤ y p.y then true else walkable l p)
unfolding set_row
walkable-set_row [] y t l p s w = ground arith
walkable-set_row (x ∷ xs) y t l p s w = ground (
  arith,
  walkable-set_row xs y t (level_set l q t) p (level_set-IsSized l q t s) w,
  walkable-level_set_any l q p t s w,
  in_bounds_same l (level_set l q t) p (level_set-SameSize l q t s),
)
  where
    q : Position
    q = record { x = x; y = y }

walkable-set_rows :
    (xs ys : List ℤ) (t : TileType) (l : Level) (p : Position)
    → IsSized l
    → tile_walkable t ≡ true
    → walkable (set_rows xs ys t l) p
      ≡ (if level_in_bounds l p && has_int p.x xs && has_int p.y ys then true else walkable l p)
unfolding set_rows
walkable-set_rows xs [] t l p s w = ground arith
walkable-set_rows xs (y ∷ ys) t l p s w = ground (
  arith,
  walkable-set_rows xs ys t (set_row xs y t l) p (set_row-SameSize xs y t l s).sized w,
  walkable-set_row xs y t l p s w,
  in_bounds_same l (set_row xs y t l) p (set_row-SameSize xs y t l s),
)

-- Whether a rectangle holds a position, both corners inclusive.
unfoldable pub inside : Rect → Position → Bool
inside r p = (leb_ℤ r.min_x p.x && leb_ℤ p.x r.max_x) && (leb_ℤ r.min_y p.y && leb_ℤ p.y r.max_y)

-- On a level whose tiles fill its size, after `fill` with a walkable tile exactly the cells of the
-- rectangle within the level, and those that were walkable before, are walkable; the size
-- and the stairs stay.
pub fill_lem :
    (r : Rect) (t : TileType) (l : Level)
    → IsSized l
    → tile_walkable t ≡ true
    → SameSize l (fill r t l)
      × ((p : Position)
          → walkable (fill r t l) p
            ≡ (if level_in_bounds l p && inside r p then true else walkable l p))
unfolding fill inside
fill_lem r t l s w = (
  set_rows-SameSize (ints r.min_x r.max_x) (ints r.min_y r.max_y) t l s,
  λ p. ground (
    arith,
    walkable-set_rows (ints r.min_x r.max_x) (ints r.min_y r.max_y) t l p s w,
    has_int-ints r.min_x r.max_x p.x,
    has_int-ints r.min_y r.max_y p.y,
  ),
)
