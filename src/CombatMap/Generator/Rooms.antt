-- ===== src/CombatMap/Generator/Rooms.antt =====
-- The generator's invariant: rooms apart and off the border, and all floor linked.
use layforge.Prelude.{
  ℕ, ◌+◌, ◌-◌, ◌≤◌, ◌<◌, ◌≡◌, refl, sym, subst, ◌⊎◌, inl, inr, Bool, true, false, some, List, [],
  ◌∷◌, arith, Position, All,
}
use layforge.Region.{cell, Linked, Linked-trans, Linked-row, Linked-column}
use layforge.CombatMap.Grid.{open_floor, Grid, IsSized, at, grid_in_bounds, is_open}
use layforge.CombatMap.Generator.{Room, center, wall, any_overlaps, Plan}
use layforge.CombatMap.Generator.Carve.{InRoom, Between, InCorridor}

-- Inside the outer ring of cells.
abbrev pub Interior : ℕ → ℕ → ℕ → ℕ → Type 0
Interior w h a b = (1 ≤ a) × (a + 1 < w) × (1 ≤ b) × (b + 1 < h)

-- A room that is not empty and keeps off the outer ring.
abbrev pub Fits : ℕ → ℕ → Room → Type 0
Fits w h r =
    (1 ≤ r.x) × (r.x + r.w + 1 ≤ w) × (1 ≤ r.y) × (r.y + r.h + 1 ≤ h) × (1 ≤ r.w) × (1 ≤ r.h)

-- No two rooms come within a cell of one another.
abbrev pub Apart : List Room → Type 0
Apart [] = Unit
Apart (r ∷ rs) = (any_overlaps r rs ≡ false) × Apart rs

-- The whole floor is linked to the centre of the newest room.
abbrev pub Hub : Grid → List Room → Type 0
Hub g [] = (a b : ℕ) → ¬ (is_open g (cell a b) ≡ true)
Hub g (r ∷ rs) =
    (a b : ℕ)
    → is_open g (cell a b) ≡ true
    → Linked (is_open g) (cell (center r).0 (center r).1) (cell a b)

-- A cell is plain floor or a wall.
abbrev pub Plain : Grid → Type 0
Plain g =
    (p : Position) → grid_in_bounds g p ≡ true → (at g p ≡ some open_floor) ⊎ (at g p ≡ some wall)

pub record PlanInv (w h : ℕ) (p : Plan) : Type 0 where
  pub sized : IsSized p.grid
  pub width : p.grid.width ≡ w
  pub height : p.grid.height ≡ h
  pub interior : (a b : ℕ) → is_open p.grid (cell a b) ≡ true → Interior w h a b
  pub fits : All (Fits w h) p.placed
  pub apart : Apart p.placed
  pub hub : Hub p.grid p.placed
  pub plain : Plain p.grid

le_total : (m n : ℕ) → (m ≤ n) ⊎ (n ≤ m)
le_total m n = grind arith

module _ (region : Position → Bool) where
  Between-row :
      (u v a y : ℕ)
      → ((i : ℕ) → Between u v i → region (cell i y) ≡ true)
      → Between u v a
      → Linked region (cell v y) (cell a y)
  Between-row u v a y h m = elim (le_total u v) [
    | inl le ↦
        Linked-row region u v v a y (λ i lo hi. h i (inl (lo, hi))) (omega arith) (omega arith)
          (omega arith) (omega arith)
    | inr le ↦
        Linked-row region v u v a y (λ i lo hi. h i (inr (lo, hi))) (omega arith) (omega arith)
          (omega arith) (omega arith)
  ]

  Between-column :
      (u v b x : ℕ)
      → ((i : ℕ) → Between u v i → region (cell x i) ≡ true)
      → Between u v b
      → Linked region (cell x v) (cell x b)
  Between-column u v b x h m = elim (le_total u v) [
    | inl le ↦
        Linked-column region u v v b x (λ i lo hi. h i (inl (lo, hi))) (omega arith) (omega arith)
          (omega arith) (omega arith)
    | inr le ↦
        Linked-column region v u v b x (λ i lo hi. h i (inr (lo, hi))) (omega arith) (omega arith)
          (omega arith) (omega arith)
  ]

  -- A corridor of open cells links each of them, and its start, to its end.
  pub corridor-Linked :
      (first : Bool) (x1 y1 x2 y2 a b : ℕ)
      → ((i j : ℕ) → InCorridor first x1 y1 x2 y2 i j → region (cell i j) ≡ true)
      → InCorridor first x1 y1 x2 y2 a b
      → Linked region (cell x2 y2) (cell a b)
  corridor-Linked true x1 y1 x2 y2 a b h (inl (m, e)) =
      Linked-trans (Between-column y1 y2 y1 x2 (λ i k. h x2 i (inr (refl, k))) (ground arith)) (
        subst (λ j. Linked region (cell x2 y1) (cell a j)) (sym e)
          (Between-row x1 x2 a y1 (λ i k. h i y1 (inl (k, refl))) m))
  corridor-Linked true x1 y1 x2 y2 a b h (inr (e, m)) =
      subst (λ i. Linked region (cell x2 y2) (cell i b)) (sym e)
        (Between-column y1 y2 b x2 (λ i k. h x2 i (inr (refl, k))) m)
  corridor-Linked false x1 y1 x2 y2 a b h (inr (m, e)) =
      subst (λ j. Linked region (cell x2 y2) (cell a j)) (sym e)
        (Between-row x1 x2 a y2 (λ i k. h i y2 (inr (k, refl))) m)
  corridor-Linked false x1 y1 x2 y2 a b h (inl (e, m)) =
      Linked-trans (Between-row x1 x2 x1 y2 (λ i k. h i y2 (inr (k, refl))) (ground arith)) (
        subst (λ i. Linked region (cell x1 y2) (cell i b)) (sym e)
          (Between-column y1 y2 b x1 (λ i k. h x1 i (inl (refl, k))) m))

  -- The open cells of a room are linked to its centre.
  pub room-Linked :
      (r : Room) (a b : ℕ)
      → 1 ≤ r.w
      → 1 ≤ r.h
      → ((i j : ℕ) → InRoom r i j → region (cell i j) ≡ true)
      → InRoom r a b
      → Linked region (cell (center r).0 (center r).1) (cell a b)
  room-Linked r a b hw hh h m =
      Linked-trans
        (Linked-row region r.x (r.x + r.w - 1) (center r).0 a (center r).1
          (λ i lo hi. h i (center r).1 (omega arith)) (omega arith) (omega arith) (omega arith)
          (omega arith))
        (Linked-column region r.y (r.y + r.h - 1) (center r).1 b a (λ i lo hi. h a i (omega arith))
          (omega arith) (omega arith) (omega arith) (omega arith))
