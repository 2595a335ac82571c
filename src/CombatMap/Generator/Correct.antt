-- ===== src/CombatMap/Generator/Correct.antt =====
-- What the generator promises of its map.
use layforge.Prelude.{
  ℕ, ◌+◌, ◌*◌, ◌≤◌, ◌<◌, ◌≡◌, refl, sym, subst, inr, true, false, some, none, List, [], ◌∷◌, arith,
  pos, pos_part, ◌≤ℤ◌, Position, Rand, Draws, bind-Draws, pure, length-replicate,
  get_elem?-replicate, index, index_lt, cell_at, in_bounds_iff, pos_eq_iff,
}
use layforge.Region.{cell, Linked, Linked-trans, Linked-sym}
use layforge.CombatMap.Grid.{Grid, IsSized, at, grid_in_bounds, is_open, is_open-in_bounds}
use layforge.CombatMap.Generator.{
  Room, wall, Plan, attempts, solid, GenerateOptions, malformed, smallest,
  generate_rooms_and_corridors,
}
use layforge.CombatMap.Generator.Rooms.{Hub, Plain, PlanInv}
use layforge.CombatMap.Generator.Steps.{attempts-Draws}

at-solid :
    (rand : Rand) (w h : ℕ) (p : Position)
    → grid_in_bounds (solid rand w h) p ≡ true
    → at (solid rand w h) p ≡ some wall
unfolding solid at grid_in_bounds cell_at
at-solid rand w h p i = rw (i, get_elem?-replicate (w * h) (index w h p) wall (index_lt w h p i))

solid-shut : (rand : Rand) (w h : ℕ) (p : Position) → ¬ (is_open (solid rand w h) p ≡ true)
unfolding is_open
solid-shut rand w h p o =
    ground (arith, at-solid rand w h p, is_open-in_bounds (solid rand w h) p o)

PlanInv-solid :
    (rand : Rand) (w h : ℕ) → PlanInv w h (record { grid = solid rand w h; placed = [] })
unfolding solid
PlanInv-solid rand w h = record {
  sized = length-replicate (w * h) wall;
  width = refl;
  height = refl;
  interior = λ a b o. absurd (solid-shut rand w h (cell a b) o);
  fits = tt;
  apart = tt;
  hub = λ a b. solid-shut rand w h (cell a b);
  plain = λ p i. inr (at-solid rand w h p i);
}

-- What the generator promises of its map.
pub record GoodMap (w h : ℕ) (g : Grid) : Type 0 where
  pub sized : IsSized g
  pub width : g.width ≡ w
  pub height : g.height ≡ h
  pub walled :
      (p : Position)
      → is_open g p ≡ true
      → (a b : ℕ) × (p ≡ cell a b) × (1 ≤ a) × (a + 1 < w) × (1 ≤ b) × (b + 1 < h)
  pub connected :
      (p q : Position) → is_open g p ≡ true → is_open g q ≡ true → Linked (is_open g) p q
  pub plain : Plain g

-- An open position has natural coordinates.
open_cell : (g : Grid) (p : Position) → is_open g p ≡ true → p ≡ cell (pos_part p.x) (pos_part p.y)
unfolding grid_in_bounds
open_cell g p o =
    let (a, b, c, d) = (in_bounds_iff g.width g.height p).0 (is_open-in_bounds g p o) in
    (pos_eq_iff p (cell (pos_part p.x) (pos_part p.y))).0 (ground arith)

Hub-Linked :
    (g : Grid) (rooms : List Room)
    → Hub g rooms
    → (a b c d : ℕ) → is_open g (cell a b) ≡ true
    → is_open g (cell c d) ≡ true
    → Linked (is_open g) (cell a b) (cell c d)
Hub-Linked g [] hub a b c d o o' = absurd (hub a b o)
Hub-Linked g (r ∷ rooms) hub a b c d o o' = Linked-trans (Linked-sym (hub a b o)) (hub c d o')

PlanInv-GoodMap : {w h : ℕ} (p : Plan) → PlanInv w h p → GoodMap w h p.grid
PlanInv-GoodMap {w} {h} p v = record {
  sized = v.sized;
  width = v.width;
  height = v.height;
  walled = λ q o.
      let inside =
        v.interior (pos_part q.x) (pos_part q.y)
          (subst (λ r. is_open p.grid r ≡ true) (open_cell p.grid q o) o) in
      (pos_part q.x, pos_part q.y, open_cell p.grid q o, inside.0, inside.1, inside.2, inside.3);
  connected = λ q r o o'.
      subst (λ a. Linked (is_open p.grid) a r) (sym (open_cell p.grid q o))
        (subst (Linked (is_open p.grid) (cell (pos_part q.x) (pos_part q.y)))
          (sym (open_cell p.grid r o'))
          (Hub-Linked p.grid p.placed v.hub _ _ _ _
            (subst (λ a. is_open p.grid a ≡ true) (open_cell p.grid q o) o)
            (subst (λ a. is_open p.grid a ≡ true) (open_cell p.grid r o') o')));
  plain = v.plain;
}

-- A request with positive sides, attempts and room size, and a source of random numbers.
abbrev pub IsRequest : GenerateOptions → Type 0
IsRequest opts =
    (pos 1 ≤ℤ opts.width)
    × (pos 1 ≤ℤ opts.height)
    × (pos 1 ≤ℤ opts.room_attempts)
    × (pos 1 ≤ℤ opts.max_room_size)
    × (opts.has_rand ≡ true)

smallest_bounds :
    (opts : GenerateOptions)
    → IsRequest opts
    → (1 ≤ smallest opts) × (smallest opts ≤ pos_part opts.max_room_size)
unfolding smallest
smallest_bounds opts q = ground arith

malformed_iff :
    (opts : GenerateOptions)
    → (IsRequest opts → malformed opts ≡ false) × (¬ IsRequest opts → malformed opts ≡ true)
unfolding malformed
malformed_iff opts = (λ q. ground arith, λ q. ground arith)

-- A well-formed request never panics in `Intn`, whatever the source of random numbers, and yields a
-- map of the requested size in which each cell is a wall or plain floor, the outer ring is wall,
-- and any two floor cells are linked by orthogonal steps over floor. Any other request, one
-- without a source of random numbers included, yields nil and draws nothing.
pub generate_rooms_and_corridors_lem :
    (rand : Rand) (opts : GenerateOptions) (s : rand.Source)
    → (IsRequest opts
        → Draws
            (λ o.
              (g : Grid) × (o ≡ some g) × GoodMap (pos_part opts.width) (pos_part opts.height) g)
            (generate_rooms_and_corridors rand opts s))
      × (¬ IsRequest opts → generate_rooms_and_corridors rand opts s ≡ some (none, s))
unfolding generate_rooms_and_corridors
generate_rooms_and_corridors_lem rand opts s = (
  λ q. rw ((malformed_iff opts).0 q) (
      bind-Draws (PlanInv w h) (λ o. (g : Grid) × (o ≡ some g) × GoodMap w h g)
        (attempts rand w h (smallest opts) (pos_part opts.max_room_size)
          (pos_part opts.room_attempts) (record { grid = solid rand w h; placed = [] }))
        (λ p. pure (some p.grid)) s
        (attempts-Draws rand w h (smallest opts) (pos_part opts.max_room_size)
          (pos_part opts.room_attempts) _ s (smallest_bounds opts q).0 (smallest_bounds opts q).1
          (PlanInv-solid rand w h))
        (λ p s' v. (p.grid, refl, PlanInv-GoodMap p v))),
  λ bad. rw ((malformed_iff opts).1 bad) refl,
)
  where
    w : ℕ
    w = pos_part opts.width

    h : ℕ
    h = pos_part opts.height
