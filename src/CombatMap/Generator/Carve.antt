-- ===== src/CombatMap/Generator/Carve.antt =====
-- Which cells each carving step opens.
use layforge.Prelude.{
  ℕ, zero, suc, ◌+◌, ◌-◌, ◌≤◌, ◌<◌, ◌≡◌, refl, ◌∙◌, ◌⊎◌, inl, inr, ◌↔◌, Bool, true, false, some,
  arith, ltb, Bool-cases, Position, pos_eq_iff, in_bounds_iff,
}
use layforge.Region.{cell}
use layforge.CombatMap.Grid.{
  open_floor, Grid, IsSized, at, grid_set, grid_in_bounds, is_open, at-grid_set, grid_set-IsSized,
}
use layforge.CombatMap.Generator.{
  Room, center, carve_row, carve_column, carve_rows, carve_room, carve_horizontal, carve_vertical,
  carve_corridor_by,
}

-- From `g` to `t` exactly the cells of `area` are opened, as plain floor; the rest is as before.
pub record Carved (g t : Grid) (area : ℕ → ℕ → Type 0) : Type 0 where
  pub sized : IsSized t
  pub width : t.width ≡ g.width
  pub height : t.height ≡ g.height
  pub opened :
      (a b : ℕ) → (is_open t (cell a b) ≡ true) ↔ ((is_open g (cell a b) ≡ true) ⊎ area a b)
  pub cells : (p : Position) → (at t p ≡ at g p) ⊎ (at t p ≡ some open_floor)

Carved-none :
    (g : Grid) (area : ℕ → ℕ → Type 0) → IsSized g → ((a b : ℕ) → ¬ area a b) → Carved g g area
Carved-none g area s empty = record {
  sized = s;
  width = refl;
  height = refl;
  opened = λ a b. (inl, elim [ inl o ↦ o | inr h ↦ absurd (empty a b h) ]);
  cells = λ p. inl refl;
}

Carved-trans :
    (g t u : Grid) (s1 s2 area : ℕ → ℕ → Type 0)
    → Carved g t s1
    → Carved t u s2
    → ((a b : ℕ) → area a b ↔ (s1 a b ⊎ s2 a b))
    → Carved g u area
Carved-trans g t u s1 s2 area c d e = record {
  sized = d.sized;
  width = d.width ∙ c.width;
  height = d.height ∙ c.height;
  opened = λ a b. (
    λ o. ground (arith, e a b, c.opened a b, d.opened a b),
    λ o. ground (arith, e a b, c.opened a b, d.opened a b),
  );
  cells = λ p. ground (arith, c.cells p, d.cells p);
}

grid_set-Carved :
    (g : Grid) (x y : ℕ)
    → IsSized g
    → x < g.width
    → y < g.height
    → Carved g (grid_set g (cell x y) open_floor) (λ a b. (a ≡ x) × (b ≡ y))
unfolding grid_set is_open grid_in_bounds
grid_set-Carved g x y s hx hy = record {
  sized = grid_set-IsSized g (cell x y) open_floor s;
  width = refl;
  height = refl;
  opened = λ a b. (
    λ o. ground (
      arith,
      at-grid_set g (cell x y) (cell a b) open_floor s,
      pos_eq_iff (cell x y) (cell a b),
      in_bounds_iff g.width g.height (cell x y),
    ),
    λ o. ground (
      arith,
      at-grid_set g (cell x y) (cell a b) open_floor s,
      pos_eq_iff (cell x y) (cell a b),
      in_bounds_iff g.width g.height (cell x y),
    ),
  );
  cells = λ p. ground (arith, at-grid_set g (cell x y) p open_floor s);
}

pub carve_row-Carved :
    (n x y : ℕ) (g : Grid)
    → IsSized g
    → x + n ≤ g.width
    → y < g.height
    → Carved g (carve_row n x y g) (λ a b. (x ≤ a) × (a < x + n) × (b ≡ y))
unfolding carve_row
carve_row-Carved zero x y g s hx hy = Carved-none g _ s (λ a b h. omega arith)
carve_row-Carved (suc n) x y g s hx hy =
    let first = grid_set-Carved g x y s (omega arith) hy in
    Carved-trans g _ _ _ _ _ first
      (carve_row-Carved n (x + 1) y (grid_set g (cell x y) open_floor) first.sized
        (omega (arith, first.width)) (omega (arith, first.height)))
      (λ a b. (λ h. ground arith, λ h. ground arith))

carve_column-Carved :
    (n x y : ℕ) (g : Grid)
    → IsSized g
    → x < g.width
    → y + n ≤ g.height
    → Carved g (carve_column n x y g) (λ a b. (a ≡ x) × (y ≤ b) × (b < y + n))
unfolding carve_column
carve_column-Carved zero x y g s hx hy = Carved-none g _ s (λ a b h. omega arith)
carve_column-Carved (suc n) x y g s hx hy =
    let first = grid_set-Carved g x y s hx (omega arith) in
    Carved-trans g _ _ _ _ _ first
      (carve_column-Carved n x (y + 1) (grid_set g (cell x y) open_floor) first.sized
        (omega (arith, first.width)) (omega (arith, first.height)))
      (λ a b. (λ h. ground arith, λ h. ground arith))

carve_rows-Carved :
    (n x y w : ℕ) (g : Grid)
    → IsSized g
    → x + w ≤ g.width
    → y + n ≤ g.height
    → Carved g (carve_rows n x y w g) (λ a b. (x ≤ a) × (a < x + w) × (y ≤ b) × (b < y + n))
unfolding carve_rows
carve_rows-Carved zero x y w g s hx hy = Carved-none g _ s (λ a b h. omega arith)
carve_rows-Carved (suc n) x y w g s hx hy =
    let first = carve_row-Carved w x y g s hx (omega arith) in
    Carved-trans g _ _ _ _ _ first
      (carve_rows-Carved n x (y + 1) w (carve_row w x y g) first.sized (omega (arith, first.width))
        (omega (arith, first.height)))
      (λ a b. (λ h. ground arith, λ h. ground arith))

abbrev pub InRoom : Room → ℕ → ℕ → Type 0
InRoom r a b = (r.x ≤ a) × (a < r.x + r.w) × (r.y ≤ b) × (b < r.y + r.h)

pub carve_room-Carved :
    (g : Grid) (r : Room)
    → IsSized g
    → r.x + r.w ≤ g.width
    → r.y + r.h ≤ g.height
    → Carved g (carve_room g r) (InRoom r)
unfolding carve_room
carve_room-Carved g r s hx hy = carve_rows-Carved r.h r.x r.y r.w g s hx hy

-- In the closed range between `u` and `v`, in either order.
abbrev pub Between : ℕ → ℕ → ℕ → Type 0
Between u v a = (u ≤ a) × (a ≤ v) ⊎ (v ≤ a) × (a ≤ u)

Carved-iff :
    (g t : Grid) (s area : ℕ → ℕ → Type 0)
    → Carved g t s
    → ((a b : ℕ) → area a b ↔ s a b)
    → Carved g t area
Carved-iff g t s area c e = record {
  sized = c.sized;
  width = c.width;
  height = c.height;
  opened =
      λ a b. (λ o. ground (arith, e a b, c.opened a b), λ o. ground (arith, e a b, c.opened a b));
  cells = c.cells;
}

carve_horizontal-Carved :
    (g : Grid) (x1 x2 y : ℕ)
    → IsSized g
    → x1 < g.width
    → x2 < g.width
    → y < g.height
    → Carved g (carve_horizontal g x1 x2 y) (λ a b. Between x1 x2 a × (b ≡ y))
unfolding carve_horizontal
carve_horizontal-Carved g x1 x2 y s h1 h2 hy = elim (Bool-cases (ltb x2 x1)) [
  | inl swap ↦ rw swap (
      Carved-iff g _ _ _ (carve_row-Carved (x1 - x2 + 1) x2 y g s (ground arith) hy)
        (λ a b. (λ h. ground arith, λ h. ground arith)))
  | inr straight ↦ rw straight (
      Carved-iff g _ _ _ (carve_row-Carved (x2 - x1 + 1) x1 y g s (ground arith) hy)
        (λ a b. (λ h. ground arith, λ h. ground arith)))
]

carve_vertical-Carved :
    (g : Grid) (y1 y2 x : ℕ)
    → IsSized g
    → y1 < g.height
    → y2 < g.height
    → x < g.width
    → Carved g (carve_vertical g y1 y2 x) (λ a b. (a ≡ x) × Between y1 y2 b)
unfolding carve_vertical
carve_vertical-Carved g y1 y2 x s h1 h2 hx = elim (Bool-cases (ltb y2 y1)) [
  | inl swap ↦ rw swap (
      Carved-iff g _ _ _ (carve_column-Carved (y1 - y2 + 1) x y2 g s hx (ground arith))
        (λ a b. (λ h. ground arith, λ h. ground arith)))
  | inr straight ↦ rw straight (
      Carved-iff g _ _ _ (carve_column-Carved (y2 - y1 + 1) x y1 g s hx (ground arith))
        (λ a b. (λ h. ground arith, λ h. ground arith)))
]

-- The two legs of a corridor between the points `(x1, y1)` and `(x2, y2)`.
abbrev pub InCorridor : Bool → ℕ → ℕ → ℕ → ℕ → ℕ → ℕ → Type 0
InCorridor true x1 y1 x2 y2 a b = (Between x1 x2 a × (b ≡ y1)) ⊎ ((a ≡ x2) × Between y1 y2 b)
InCorridor false x1 y1 x2 y2 a b = ((a ≡ x1) × Between y1 y2 b) ⊎ (Between x1 x2 a × (b ≡ y2))

pub carve_corridor_by-Carved :
    (horizontal_first : Bool) (g : Grid) (from to : Room)
    → IsSized g
    → (center from).0 < g.width
    → (center from).1 < g.height
    → (center to).0 < g.width
    → (center to).1 < g.height
    → Carved g
        (carve_corridor_by horizontal_first g from to)
        (InCorridor horizontal_first (center from).0 (center from).1 (center to).0 (center to).1)
unfolding carve_corridor_by
carve_corridor_by-Carved true g from to s h1 h2 h3 h4 =
    let first =
      carve_horizontal-Carved g (center from).0 (center to).0 (center from).1 s h1 h3 h2 in
    Carved-trans g _ _ _ _ _ first
      (carve_vertical-Carved _ (center from).1 (center to).1 (center to).0 first.sized
        (omega (arith, first.height)) (omega (arith, first.height)) (omega (arith, first.width)))
      (λ a b. (λ h. h, λ h. h))
carve_corridor_by-Carved false g from to s h1 h2 h3 h4 =
    let first = carve_vertical-Carved g (center from).1 (center to).1 (center from).0 s h2 h4 h1 in
    Carved-trans g _ _ _ _ _ first
      (carve_horizontal-Carved _ (center from).0 (center to).0 (center to).1 first.sized
        (omega (arith, first.width)) (omega (arith, first.width)) (omega (arith, first.height)))
      (λ a b. (λ h. h, λ h. h))
