-- ===== src/CombatMap/Movement/Walk.antt =====
-- What a legal move is, independently of the search: a walk of king's steps over open cells.
use layforge.Prelude.{
  ℕ, zero, suc, ◌+◌, ◌*◌, ◌≤◌, ◌<◌, ◌≡◌, refl, ap, subst, ◌≢◌, ◌⊎◌, inl, inr, true, List, [], ◌∷◌,
  ◌++◌, arith, ℤ, pos, negsuc, pos_part, neg_part, ◌+ℤ◌, +ℤ_parts, eq_of_parts, Position, ◌∈◌,
  mem-append, length, length-append, none, some, lookup, insert, position_eq, lookup-insert,
  pos_eq_iff, in_bounds_iff,
}
use layforge.CombatMap.Grid.{Grid, grid_in_bounds, is_open}
use layforge.CombatMap.Movement.{neighbor_offsets, offset_by}

abbrev Near : ℤ → ℤ → Type 0
Near a b =
    (pos_part a + neg_part b ≤ pos_part b + neg_part a + 1)
    × (pos_part b + neg_part a ≤ pos_part a + neg_part b + 1)

-- The eight neighbours of a position.
unfoldable pub Adjacent : Position → Position → Type 0
Adjacent p q = Near p.x q.x × Near p.y q.y × (p ≢ q)

-- `n` steps from `start` to an open cell; only `start` itself may be closed.
pub data Walk (g : Grid) (start : Position) : ℕ → Position → Type 0 where
  here : Walk g start zero start
  step :
      {n : ℕ} {p q : Position}
      → Walk g start n p
      → Adjacent p q
      → is_open g q ≡ true
      → Walk g start (suc n) q

unit_cases : (a b : ℤ) → Near a b → (b ≡ a +ℤ pos 1) ⊎ ((b ≡ a +ℤ negsuc 0) ⊎ (b ≡ a +ℤ pos 0))
unfolding ◌+ℤ◌
unit_cases a b h = ground arith

+ℤ_zero : (a : ℤ) → a +ℤ pos 0 ≡ a
unfolding ◌+ℤ◌
+ℤ_zero a = ground arith

-- A position is not its own neighbour, so some coordinate moves.
pub Adjacent-offset :
    (p q : Position) → Adjacent p q → (d : ℤ × ℤ) × (d ∈ neighbor_offsets) × (q ≡ offset_by p d)
unfolding Adjacent offset_by
Adjacent-offset p q (nx, ny, far) = elim (unit_cases p.x q.x nx) [
  | inl ex ↦ elim (unit_cases p.y q.y ny) [
    | inl ey ↦ ((pos 1, pos 1), ground arith, ground arith)
    | inr (inl ey) ↦ ((pos 1, negsuc 0), ground arith, ground arith)
    | inr (inr ey) ↦ ((pos 1, pos 0), ground arith, ground arith)
  ]
  | inr (inl ex) ↦ elim (unit_cases p.y q.y ny) [
    | inl ey ↦ ((negsuc 0, pos 1), ground arith, ground arith)
    | inr (inl ey) ↦ ((negsuc 0, negsuc 0), ground arith, ground arith)
    | inr (inr ey) ↦ ((negsuc 0, pos 0), ground arith, ground arith)
  ]
  | inr (inr ex) ↦ elim (unit_cases p.y q.y ny) [
    | inl ey ↦ ((pos 0, pos 1), ground arith, ground arith)
    | inr (inl ey) ↦ ((pos 0, negsuc 0), ground arith, ground arith)
    | inr (inr ey) ↦ absurd (far (ground (arith, +ℤ_zero p.x, +ℤ_zero p.y)))
  ]
]

moved-Adjacent :
    (p : Position) (dx dy : ℤ)
    → Near (pos 0) dx
    → Near (pos 0) dy
    → (dx ≢ pos 0) ⊎ (dy ≢ pos 0)
    → Adjacent p (offset_by p (dx, dy))
unfolding Adjacent offset_by
moved-Adjacent p dx dy nx ny moved = (
  omega (arith, +ℤ_parts p.x dx),
  omega (arith, +ℤ_parts p.y dy),
  λ e. ground (
    arith,
    +ℤ_parts p.x dx,
    +ℤ_parts p.y dy,
    eq_of_parts dx (pos 0),
    eq_of_parts dy (pos 0),
    ap (λ (r : Position). r.x) e,
    ap (λ (r : Position). r.y) e,
  ),
)

pub offset-Adjacent : (p : Position) (d : ℤ × ℤ) → d ∈ neighbor_offsets → Adjacent p (offset_by p d)
offset-Adjacent p (dx, dy) m = moved-Adjacent p dx dy (ground arith) (ground arith) (ground arith)

-- The positions of a grid, and how many of them have no distance yet.
row : ℕ → ℤ → List Position
row zero y = []
row (suc n) y = record { x = pos n; y = y } ∷ row n y

pub positions : ℕ → ℕ → List Position
positions w zero = []
positions w (suc h) = row w (pos h) ++ positions w h

length-row : (w : ℕ) (y : ℤ) → length (row w y) ≡ w
unfolding row
length-row zero y = refl
length-row (suc n) y = ap suc (length-row n y)

pub length-positions : (w h : ℕ) → length (positions w h) ≡ w * h
unfolding positions
length-positions w zero = omega arith
length-positions w (suc h) = omega (
  arith,
  length-append (row w (pos h)) (positions w h),
  length-row w (pos h),
  length-positions w h,
)

mem-row : (w i : ℕ) (y : ℤ) → i < w → record { x = pos i; y = y } ∈ row w y
unfolding row
mem-row zero i y h = absurd (omega arith)
mem-row (suc n) i y h = ground (arith, mem-row n i y)

mem-positions_pos : (w h i j : ℕ) → i < w → j < h → record { x = pos i; y = pos j } ∈ positions w h
unfolding positions
mem-positions_pos w zero i j a b = absurd (omega arith)
mem-positions_pos w (suc h) i j a b =
    (mem-append _ (row w (pos h)) (positions w h)).1
      (ground (arith, mem-row w i (pos h), mem-positions_pos w h i j))

pub mem-positions :
    (g : Grid) (p : Position) → grid_in_bounds g p ≡ true → p ∈ positions g.width g.height
unfolding grid_in_bounds
mem-positions g p i =
    let (a, b, c, d) = (in_bounds_iff g.width g.height p).0 i in
    subst (λ q. q ∈ positions g.width g.height)
      ((pos_eq_iff (record { x = pos (pos_part p.x); y = pos (pos_part p.y) }) p).0 (ground arith))
      (mem-positions_pos g.width g.height (pos_part p.x) (pos_part p.y) c d)

pub unseen : List (Position × ℕ) → List Position → ℕ
unseen dist [] = 0
unseen dist (p ∷ ps) = elim (lookup p dist) [
  | none ↦ suc (unseen dist ps)
  | some _ ↦ unseen dist ps
]

pub unseen-le : (dist : List (Position × ℕ)) (ps : List Position) → unseen dist ps ≤ length ps
unfolding unseen
unseen-le dist [] = omega arith
unseen-le dist (p ∷ ps) = ground (arith, unseen-le dist ps)

unseen-insert_le :
    (dist : List (Position × ℕ)) (p : Position) (n : ℕ) (ps : List Position)
    → unseen (insert p n dist) ps ≤ unseen dist ps
unfolding unseen
unseen-insert_le dist p n [] = omega arith
unseen-insert_le dist p n (q ∷ ps) =
    ground (arith, lookup-insert p q n dist, unseen-insert_le dist p n ps)

pub unseen-insert :
    (dist : List (Position × ℕ)) (p : Position) (n : ℕ) (ps : List Position)
    → lookup p dist ≡ none
    → p ∈ ps
    → unseen (insert p n dist) ps + 1 ≤ unseen dist ps
unfolding unseen
unseen-insert dist p n [] fresh m = absurd m
unseen-insert dist p n (q ∷ ps) fresh m = ground (
  arith,
  lookup-insert p q n dist,
  pos_eq_iff p q,
  unseen-insert_le dist p n ps,
  unseen-insert dist p n ps fresh,
)
