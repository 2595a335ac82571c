-- ===== src/Dungeon/Rooms.antt =====
-- master/internal/dungeon/generator.go: a room ahead of an expansion point joins what is carved.
use layforge.Prelude.{
  ℕ, ◌<◌, ◌≡◌, refl, ◌∙◌, inl, inr, Bool, true, false, ◌&&◌, List, [], ◌∷◌, Bool-cases, arith,
  int_laws, ℤ, pos, negsuc, pos_part, ◌+ℤ◌, ◌-ℤ◌, +ℤ_parts, -ℤ_parts, leb_ℤ, eqb_ℤ_iff, ◌≤ℤ◌,
  Position, Rand, Draws, draw-then,
}
use layforge.Region.{
  Beside, Linked, stay, go, Linked-trans, Linked-end, cell, Linked-row, Linked-column,
}
use layforge.Dungeon.Level.{
  TileType, floor, tile_walkable, Level, carvable, level_set, walkable, IsSized, carvable-in_bounds,
}
use layforge.Dungeon.Shape.{
  Rect, ints, fill, free, row_free, rows_free, rect_free, Direction, north, east, south, west,
  delta, ahead,
}
use layforge.Dungeon.Generator.Rooms.{lay_out}
use layforge.Dungeon.Extends.{
  Extends, Extends-trans, same_carvable, level_set-Extends, level_set-Linked, Beside-ahead,
}
use layforge.Dungeon.Rects.{has_int, has_int-ints, inside, fill_lem}

abbrev at : ℤ → ℤ → Position
at x y = record { x = x; y = y }

rect-Linked_at :
    (region : Position → Bool) (r : Rect) (x y u v : ℤ)
    → leb_ℤ (pos 0) r.min_x ≡ true
    → leb_ℤ (pos 0) r.min_y ≡ true
    → ((z : Position) → inside r z ≡ true → region z ≡ true)
    → inside r (at x y) ≡ true
    → inside r (at u v) ≡ true
    → Linked region (at x y) (at u v)
unfolding inside
rect-Linked_at region r (negsuc i) j u v a b h m n = absurd (ground arith)
rect-Linked_at region r (pos i) (negsuc j) u v a b h m n = absurd (ground arith)
rect-Linked_at region r (pos i) (pos j) (negsuc k) l a b h m n = absurd (ground arith)
rect-Linked_at region r (pos i) (pos j) (pos k) (negsuc l) a b h m n = absurd (ground arith)
rect-Linked_at region r (pos i) (pos j) (pos k) (pos l) a b h m n =
    Linked-trans
      (Linked-row region (pos_part r.min_x) (pos_part r.max_x) i k j
        (λ c lo hi. h (cell c j) (ground arith)) (ground arith) (ground arith) (ground arith)
        (ground arith))
      (Linked-column region (pos_part r.min_y) (pos_part r.max_y) j l k
        (λ c lo hi. h (cell k c) (ground arith)) (ground arith) (ground arith) (ground arith)
        (ground arith))

-- Any two cells of a rectangle that lies in the region are linked in it.
pub rect-Linked :
    (region : Position → Bool) (r : Rect) (p q : Position)
    → leb_ℤ (pos 0) r.min_x ≡ true
    → leb_ℤ (pos 0) r.min_y ≡ true
    → ((z : Position) → inside r z ≡ true → region z ≡ true)
    → inside r p ≡ true
    → inside r q ≡ true
    → Linked region p q
rect-Linked region r p q a b h m n = rect-Linked_at region r p.x p.y q.x q.y a b h m n

corner_x :
    (r : Rect) (c : Position) (l : Level)
    → ((p : Position) → inside r p ≡ true → carvable l p ≡ true)
    → inside r c ≡ true
    → leb_ℤ (pos 0) r.min_x ≡ true
unfolding inside carvable
corner_x r c l h e = ground (arith, h (record { x = r.min_x; y = c.y }) (ground arith))

corner_y :
    (r : Rect) (c : Position) (l : Level)
    → ((p : Position) → inside r p ≡ true → carvable l p ≡ true)
    → inside r c ≡ true
    → leb_ℤ (pos 0) r.min_y ≡ true
unfolding inside carvable
corner_y r c l h e = ground (arith, h (record { x = c.x; y = r.min_y }) (ground arith))

-- A rectangle of carvable cells, filled from a neighbour that can be walked on.
pub fill-Extends :
    (a c : Position) (r : Rect) (t : TileType) (l : Level)
    → IsSized l
    → tile_walkable t ≡ true
    → walkable l a ≡ true
    → Beside a c
    → inside r c ≡ true
    → ((p : Position) → inside r p ≡ true → carvable l p ≡ true)
    → Extends a l (fill r t l)
fill-Extends a c r t l s tw w b ic h = record {
  width = (fill_lem r t l s tw).0.width;
  height = (fill_lem r t l s tw).0.height;
  stairs = (fill_lem r t l s tw).0.stairs;
  sized = (fill_lem r t l s tw).0.sized;
  grows = grows;
  links = λ q v. elim (Bool-cases (inside r q)) [
    | inl e ↦ inr (
      h q e,
      Linked-trans (go (stay (grows a w)) b (filled c ic)) (
          rect-Linked (walkable (fill r t l)) r c q (corner_x r c l h ic) (corner_y r c l h ic)
            filled ic e),
    )
    | inr e ↦ inl (ground (arith, (fill_lem r t l s tw).1 q))
  ];
}
  where
    grows : (q : Position) → walkable l q ≡ true → walkable (fill r t l) q ≡ true
    grows q v = ground (arith, (fill_lem r t l s tw).1 q)

    filled : (q : Position) → inside r q ≡ true → walkable (fill r t l) q ≡ true
    filled q e = ground (arith, (fill_lem r t l s tw).1 q, carvable-in_bounds l q (h q e))

row_free-free :
    (xs : List ℤ) (x y : ℤ) (l : Level)
    → row_free xs y l ≡ true
    → has_int x xs ≡ true
    → free l (record { x = x; y = y }) ≡ true
unfolding row_free
row_free-free [] x y l h m = absurd (ground arith)
row_free-free (z ∷ xs) x y l h m = ground (arith, eqb_ℤ_iff z x, row_free-free xs x y l)

rows_free-free :
    (xs ys : List ℤ) (x y : ℤ) (l : Level)
    → rows_free xs ys l ≡ true
    → has_int x xs ≡ true
    → has_int y ys ≡ true
    → free l (record { x = x; y = y }) ≡ true
unfolding rows_free
rows_free-free xs [] x y l h m n = absurd (ground arith)
rows_free-free xs (z ∷ ys) x y l h m n =
    ground (arith, eqb_ℤ_iff z y, rows_free-free xs ys x y l, row_free-free xs x y l)

-- The cells that the check of a rectangle covers: it and the ring around it.
abbrev pub ringed : Rect → Rect
ringed r = record {
  min_x = r.min_x -ℤ pos 1;
  max_x = r.max_x +ℤ pos 1;
  min_y = r.min_y -ℤ pos 1;
  max_y = r.max_y +ℤ pos 1;
}

pub rect_free-free :
    (r : Rect) (p : Position) (l : Level)
    → rect_free r l ≡ true
    → inside (ringed r) p ≡ true
    → free l p ≡ true
unfolding rect_free inside
rect_free-free r p l h m =
    rows_free-free (ints (r.min_x -ℤ pos 1) (r.max_x +ℤ pos 1))
      (ints (r.min_y -ℤ pos 1) (r.max_y +ℤ pos 1)) p.x p.y l h
      (ground (arith, has_int-ints (r.min_x -ℤ pos 1) (r.max_x +ℤ pos 1) p.x))
      (ground (arith, has_int-ints (r.min_y -ℤ pos 1) (r.max_y +ℤ pos 1) p.y))

leb_pred : (a b : ℤ) → leb_ℤ a b ≡ true → leb_ℤ (a -ℤ pos 1) b ≡ true
leb_pred a b h = ground (arith, -ℤ_parts a (pos 1))

leb_succ : (a b : ℤ) → leb_ℤ a b ≡ true → leb_ℤ a (b +ℤ pos 1) ≡ true
leb_succ a b h = ground (arith, +ℤ_parts b (pos 1))

and_true : (a b : Bool) → (a && b) ≡ true → (a ≡ true) × (b ≡ true)
and_true a b h = ground arith

pub inside-ringed : (r : Rect) (p : Position) → inside r p ≡ true → inside (ringed r) p ≡ true
unfolding inside
inside-ringed r p h =
    let (hx, hy) = and_true (leb_ℤ r.min_x p.x && leb_ℤ p.x r.max_x) _ h in
    let (a, b) = and_true (leb_ℤ r.min_x p.x) _ hx in
    let (c, d) = and_true (leb_ℤ r.min_y p.y) _ hy in
    rw
      (
        leb_pred r.min_x p.x a,
        leb_succ p.x r.max_x b,
        leb_pred r.min_y p.y c,
        leb_succ p.y r.max_y d,
      )
      refl

-- What `tryChamber` and `growSecretRoom` carve: the door ahead and the room behind it.
abbrev pub with_room : Level → Position → TileType → Rect → Level
with_room l at t r = fill r floor (level_set l at t)

-- The door cell lies in the ring around the room, next to a cell of the room.
pub record Fronts (d : Position) (c : Position) (r : Rect) : Type 0 where
  pub in_ring : inside (ringed r) d ≡ true
  pub next_to : Beside d c
  pub in_room : inside r c ≡ true

pub free_parts :
    (l : Level) (p : Position) → free l p ≡ true → (carvable l p ≡ true) × (walkable l p ≡ false)
unfolding free
free_parts l p h = ground arith

-- A walkable door tile next to a cell that can be walked on, and a room behind it whose surrounding
-- ring holds the door cell, extend a level whose tiles fill its size from that cell, if the check
-- found the room and its ring free: each new cell to walk on is carvable and linked to that cell.
pub with_room-Extends :
    (a d c : Position) (t : TileType) (r : Rect) (l : Level)
    → IsSized l
    → walkable l a ≡ true
    → Beside a d
    → tile_walkable t ≡ true
    → rect_free r l ≡ true
    → Fronts d c r
    → Extends a l (with_room l d t r)
unfolding tile_walkable
with_room-Extends a d c t r l s w b tw f front =
    Extends-trans a d l (level_set l d t) (with_room l d t r) step link (
      fill-Extends d c r floor (level_set l d t) step.sized refl (Linked-end link) front.next_to
        front.in_room room)
  where
    dig : carvable l d ≡ true
    dig = (free_parts l d (rect_free-free r d l f front.in_ring)).0

    step : Extends a l (level_set l d t)
    step = level_set-Extends a d l t s w dig b tw

    link : Linked (walkable (level_set l d t)) a d
    link = level_set-Linked a d l t s w dig b tw

    room : (p : Position) → inside r p ≡ true → carvable (level_set l d t) p ≡ true
    room p i =
        same_carvable l (level_set l d t) p step.width step.height
        ∙ (free_parts l p (rect_free-free r p l f (inside-ringed r p i))).0

abbrev pub Ahead : Position → Direction → Rect → Type 0
Ahead d dir r = Fronts d (ahead d dir) r

le_leb : (a b : ℤ) → a ≤ℤ b → leb_ℤ a b ≡ true
le_leb a b h = ground arith

inside_of :
    (r : Rect) (p : Position)
    → r.min_x ≤ℤ p.x
    → p.x ≤ℤ r.max_x
    → r.min_y ≤ℤ p.y
    → p.y ≤ℤ r.max_y
    → inside r p ≡ true
unfolding inside
inside_of r p a b c d =
    rw (le_leb r.min_x p.x a, le_leb p.x r.max_x b, le_leb r.min_y p.y c, le_leb p.y r.max_y d) refl

Ahead-north :
    (d : Position) (k w h : ℕ)
    → k < w
    → 0 < h
    → Ahead d north (record {
      min_x = d.x -ℤ pos k;
      max_x = d.x -ℤ pos k +ℤ pos w -ℤ pos 1;
      min_y = d.y -ℤ pos 1 -ℤ pos h +ℤ pos 1;
      max_y = d.y -ℤ pos 1;
    })
unfolding ahead delta
Ahead-north d k w h lt long = record {
  in_ring = inside_of _ d (omega int_laws) (omega int_laws) (omega int_laws) (omega int_laws);
  next_to = Beside-ahead d north;
  in_room =
      inside_of _ (ahead d north) (omega int_laws) (omega int_laws) (omega int_laws)
        (omega int_laws);
}

Ahead-south :
    (d : Position) (k w h : ℕ)
    → k < w
    → 0 < h
    → Ahead d south (record {
      min_x = d.x -ℤ pos k;
      max_x = d.x -ℤ pos k +ℤ pos w -ℤ pos 1;
      min_y = d.y +ℤ pos 1;
      max_y = d.y +ℤ pos 1 +ℤ pos h -ℤ pos 1;
    })
unfolding ahead delta
Ahead-south d k w h lt long = record {
  in_ring = inside_of _ d (omega int_laws) (omega int_laws) (omega int_laws) (omega int_laws);
  next_to = Beside-ahead d south;
  in_room =
      inside_of _ (ahead d south) (omega int_laws) (omega int_laws) (omega int_laws)
        (omega int_laws);
}

Ahead-east :
    (d : Position) (k w h : ℕ)
    → k < h
    → 0 < w
    → Ahead d east (record {
      min_x = d.x +ℤ pos 1;
      max_x = d.x +ℤ pos 1 +ℤ pos w -ℤ pos 1;
      min_y = d.y -ℤ pos k;
      max_y = d.y -ℤ pos k +ℤ pos h -ℤ pos 1;
    })
unfolding ahead delta
Ahead-east d k w h lt long = record {
  in_ring = inside_of _ d (omega int_laws) (omega int_laws) (omega int_laws) (omega int_laws);
  next_to = Beside-ahead d east;
  in_room =
      inside_of _ (ahead d east) (omega int_laws) (omega int_laws) (omega int_laws)
        (omega int_laws);
}

Ahead-west :
    (d : Position) (k w h : ℕ)
    → k < h
    → 0 < w
    → Ahead d west (record {
      min_x = d.x -ℤ pos 1 -ℤ pos w +ℤ pos 1;
      max_x = d.x -ℤ pos 1;
      min_y = d.y -ℤ pos k;
      max_y = d.y -ℤ pos k +ℤ pos h -ℤ pos 1;
    })
unfolding ahead delta
Ahead-west d k w h lt long = record {
  in_ring = inside_of _ d (omega int_laws) (omega int_laws) (omega int_laws) (omega int_laws);
  next_to = Beside-ahead d west;
  in_room =
      inside_of _ (ahead d west) (omega int_laws) (omega int_laws) (omega int_laws)
        (omega int_laws);
}

-- A room of this width and height, in front of the door and without it.
abbrev pub Fits : Position → Direction → ℕ → ℕ → Rect → Type 0
Fits d dir w h r =
    Ahead d dir r
    × (inside r d ≡ false)
    × (r.max_x ≡ r.min_x +ℤ pos w -ℤ pos 1)
    × (r.max_y ≡ r.min_y +ℤ pos h -ℤ pos 1)

inside_parts :
    (r : Rect) (p : Position)
    → inside r p ≡ true
    → (r.min_x ≤ℤ p.x) × (p.x ≤ℤ r.max_x) × (r.min_y ≤ℤ p.y) × (p.y ≤ℤ r.max_y)
unfolding inside
inside_parts r p h = ground arith

outside_of :
    (r : Rect) (p : Position)
    → ((r.min_x ≤ℤ p.x) × (p.x ≤ℤ r.max_x) × (r.min_y ≤ℤ p.y) × (p.y ≤ℤ r.max_y) → ⊥)
    → inside r p ≡ false
outside_of r p h = elim (Bool-cases (inside r p)) [
  | inl e ↦ absurd (h (inside_parts r p e))
  | inr e ↦ e
]

-- For every size above zero, laying out a room does not panic. The room has the width and height asked
-- for; the door is not in it, but in the ring around it, and the next cell ahead of the door is in the
-- room and beside the door.
pub lay_out-Draws :
    (rand : Rand) (d : Position) (dir : Direction) (w h : ℕ) (s : rand.Source)
    → 0 < w
    → 0 < h
    → Draws (Fits d dir w h) (lay_out rand d dir w h s)
unfolding lay_out
lay_out-Draws rand d north w h s hw hh = draw-then rand w (Fits d north w h) _ s hw (λ k s' lt. (
  Ahead-north d k w h lt hh,
  outside_of _ d (λ o. let (a, b, c, e) = o in omega int_laws),
  refl,
  omega int_laws,
))
lay_out-Draws rand d east w h s hw hh = draw-then rand h (Fits d east w h) _ s hh (λ k s' lt. (
  Ahead-east d k w h lt hw,
  outside_of _ d (λ o. let (a, b, c, e) = o in omega int_laws),
  refl,
  refl,
))
lay_out-Draws rand d south w h s hw hh = draw-then rand w (Fits d south w h) _ s hw (λ k s' lt. (
  Ahead-south d k w h lt hh,
  outside_of _ d (λ o. let (a, b, c, e) = o in omega int_laws),
  refl,
  refl,
))
lay_out-Draws rand d west w h s hw hh = draw-then rand h (Fits d west w h) _ s hh (λ k s' lt. (
  Ahead-west d k w h lt hw,
  outside_of _ d (λ o. let (a, b, c, e) = o in omega int_laws),
  omega int_laws,
  refl,
))
