-- ===== src/Dungeon/Generator.antt =====
-- master/internal/dungeon/generator.go: the generator's state, and landings.
pub mod Rooms
pub mod Growth
use package.layforge.Prelude.{
  ℕ, zero, suc, ◌+◌, ◌*◌, ◌/◌, Bool, true, false, not, ◌&&◌, ◌||◌, Option, none, some, List, [],
  ◌∷◌, ◌++◌, ltb, leb, ◌==◌, if◌then◌else◌, replicate, length, get_elem?, set, ℤ, pos, pos_part,
  ◌+ℤ◌, ◌-ℤ◌, ltb_ℤ, leb_ℤ, Position, pos_eq, Rand, Draw, ◌>>=◌, pure, draw,
}
use package.layforge.Dungeon.Level.{
  TileType, rock, floor, door, stairs_up, stairs_down, secret_door, FeatureKind, fountain, statue,
  shrine, chest, up, down, Stair, Level, level_set, level_in_bounds, carvable, walkable, Dungeon,
}
use package.layforge.Dungeon.Shape.{
  RoomSize, average, cramped, huge, Direction, north, east, south, west, left, right, around,
  same_direction, ahead, clamp, half, ints, Rect, fill, rect_free, carve_corridor,
  carve_landing_cells,
}

-- `has_rand` is whether the field Rand is set.
pub record Options : Type 0 where
  pub level_width : ℤ
  pub level_height : ℤ
  pub max_levels : ℤ
  pub growth_budget : ℤ
  pub room_size : RoomSize
  pub has_rand : Bool

-- `expansionPoint`
pub record ExpansionPoint : Type 0 where
  pub level : ℕ
  pub at : Position
  pub dir : Direction

-- `generator`: what a call changes, but for the budget, on which the loop recurses.
pub record Generator : Type 0 where
  pub levels : List Level
  pub frontier : List ExpansionPoint

abbrev pub frontier_soft_cap : ℕ
frontier_soft_cap = 120

-- `l := g.dungeon.Levels[i]`, which panics out of range.
unfoldable pub on_level : {S A : Type 0} → ℕ → Generator → (Level → Draw S A) → Draw S A
on_level i g k s = elim (get_elem? g.levels i) [ none ↦ none | some l ↦ k l s ]

-- The generator once the level is changed.
unfoldable pub with_level : ℕ → Level → Generator → Generator
with_level i l g = record g { levels = set g.levels i l }

unfoldable pub new_level : ℕ → ℕ → ℕ → Level
new_level width height depth = record {
  depth = depth;
  width = width;
  height = height;
  tiles = replicate (width * height) rock;
  features = [];
  stairs = [];
}

unfoldable pub push : ExpansionPoint → Generator → Generator
push e g = record g { frontier = g.frontier ++ e ∷ [] }

-- `enqueue`, where `l` is the point's level.
unfoldable pub enqueue_on : Level → ℕ → Position → Direction → Generator → Generator
unfolding push
enqueue_on l i p d g =
    if leb (frontier_soft_cap * 3) (length g.frontier)
    then g
    else if not (carvable l p)
    then g
    else push (record { level = i; at = p; dir = d }) g

unfoldable pub enqueue : {S : Type 0} → ℕ → Position → Direction → Generator → Draw S Generator
unfolding enqueue_on on_level
enqueue i p d g = on_level i g λ l. pure (enqueue_on l i p d g)

-- The last loop of `carveLanding`: an expansion point in each direction that has room.
unfoldable pub seed : ℕ → Position → Level → List Direction → Generator → Generator
unfolding push ahead
seed i p l [] g = g
seed i p l (d ∷ ds) g = seed i p l ds (
    if carvable l (ahead (ahead p d) d)
    then push (record { level = i; at = ahead p d; dir = d }) g
    else g)

-- Where a landing near the position comes to lie.
unfoldable pub landing : Position → Level → Position
unfolding clamp
landing p l = record {
  x = clamp p.x (pos 2) (pos l.width -ℤ pos 3);
  y = clamp p.y (pos 2) (pos l.height -ℤ pos 3);
}

unfoldable pub carve_landing :
    {S : Type 0} → ℕ → Position → Generator → Draw S (Position × Generator)
unfolding landing seed carve_landing_cells on_level with_level
carve_landing i p g = on_level i g λ l.
    let c = landing p l in
    let l' = carve_landing_cells c l in
    pure (c, seed i c l' (north ∷ east ∷ south ∷ west ∷ []) (with_level i l' g))

unfoldable pub feature_kind : ℕ → FeatureKind
feature_kind zero = fountain
feature_kind (suc zero) = statue
feature_kind (suc (suc zero)) = shrine
feature_kind _ = chest

unfoldable pub add_feature : Position → FeatureKind → Level → Level
add_feature p k l = record l { features = l.features ++ record { at = p; kind = k } ∷ [] }

unfoldable pub add_stair : Stair → Level → Level
add_stair s l = record l { stairs = l.stairs ++ s ∷ [] }

unfoldable pub center : Rect → Position
unfolding half
center r = record { x = half (r.min_x +ℤ r.max_x); y = half (r.min_y +ℤ r.max_y) }

-- The guard at the top of `Generate`.
unfoldable pub malformed : Options → Bool
malformed opts =
    leb_ℤ opts.level_width (pos 0)
    || leb_ℤ opts.level_height (pos 0)
    || ltb_ℤ opts.max_levels (pos 1)
    || not opts.has_rand

-- `budget`: the default is a 25th of the cells, and at least 8.
unfoldable pub budget_of : Options → ℕ
budget_of opts =
    if leb_ℤ opts.growth_budget (pos 0)
    then (let b = (pos_part opts.level_width * pos_part opts.level_height) / 25 in
        if ltb b 8 then 8 else b)
    else pos_part opts.growth_budget
