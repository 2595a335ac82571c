-- ===== src/Dungeon/Arrival.antt =====
-- master/internal/dungeon/generator.go: the landing of a new level and its expansion points.
use layforge.Prelude.{
  ℕ, ◌/◌, ◌≡◌, refl, sym, subst, ◌∙◌, inl, inr, true, some, List, [], ◌∷◌, Bool-cases, arith,
  get_elem?, ◌≤◌, ℤ, pos, negsuc, ◌+ℤ◌, ◌-ℤ◌, +ℤ_parts, -ℤ_parts, ltb_ℤ, leb_ℤ, Position, in_bounds,
}
use layforge.Dungeon.Level.{floor, tile_walkable, Level, level_in_bounds, walkable, carvable}
use layforge.Dungeon.Shape.{
  Direction, north, east, south, west, delta, ahead, clamp, Rect, fill, carve_landing_cells,
}
use layforge.Dungeon.Generator.{Generator, new_level, push, seed, landing}
use layforge.Dungeon.Rects.{inside, fill_lem}
use layforge.Dungeon.Landing.{new_level-IsSized, fill-Joined}
use layforge.Dungeon.Sound.{Joined, Rooted, All-append}
use layforge.Dungeon.Stairs.{Laid}

-- The position is on a level of that size, and not in its first row or column.
pub record Central (w h : ℕ) (c : Position) : Type 0 where
  pub right_of : leb_ℤ (pos 1) c.x ≡ true
  pub below : leb_ℤ (pos 1) c.y ≡ true
  pub left_of : ltb_ℤ c.x (pos w) ≡ true
  pub above : ltb_ℤ c.y (pos h) ≡ true

clamped :
    (n : ℕ)
    → 3 ≤ n
    → (leb_ℤ (pos 1) (clamp (pos (n / 2)) (pos 2) (pos n -ℤ pos 3)) ≡ true)
      × (ltb_ℤ (clamp (pos (n / 2)) (pos 2) (pos n -ℤ pos 3)) (pos n) ≡ true)
unfolding clamp
clamped n h = (ground (arith, -ℤ_parts (pos n) (pos 3)), ground (arith, -ℤ_parts (pos n) (pos 3)))

abbrev pub middle : ℕ → ℕ → Position
middle w h = record { x = pos (w / 2); y = pos (h / 2) }

-- Where the landing of a level lies, whatever its depth.
pub landing-Central :
    (w h d : ℕ) → 3 ≤ w → 3 ≤ h → Central w h (landing (middle w h) (new_level w h d))
unfolding landing new_level
landing-Central w h d a b = record {
  right_of = (clamped w a).0;
  below = (clamped h b).0;
  left_of = (clamped w a).1;
  above = (clamped h b).1;
}

pub landing_depth :
    (w h d e : ℕ) (p : Position) → landing p (new_level w h d) ≡ landing p (new_level w h e)
unfolding landing new_level
landing_depth w h d e p = refl

-- The coordinate `u` is on the level and at most one from `v`.
abbrev Near : ℤ → ℕ → ℤ → Type 0
Near v w u =
    (leb_ℤ (pos 0) u ≡ true)
    × (ltb_ℤ u (pos w) ≡ true)
    × (leb_ℤ (v -ℤ pos 1) u ≡ true)
    × (leb_ℤ u (v +ℤ pos 1) ≡ true)

unmoved : (v : ℤ) (w : ℕ) → leb_ℤ (pos 1) v ≡ true → ltb_ℤ v (pos w) ≡ true → Near v w (v +ℤ pos 0)
unmoved v w a b = (
  ground (arith, +ℤ_parts v (pos 0)),
  ground (arith, +ℤ_parts v (pos 0)),
  ground (arith, +ℤ_parts v (pos 0), -ℤ_parts v (pos 1)),
  ground (arith, +ℤ_parts v (pos 0), +ℤ_parts v (pos 1)),
)

back : (v : ℤ) (w : ℕ) → leb_ℤ (pos 1) v ≡ true → ltb_ℤ v (pos w) ≡ true → Near v w (v +ℤ negsuc 0)
back v w a b = (
  ground (arith, +ℤ_parts v (negsuc 0)),
  ground (arith, +ℤ_parts v (negsuc 0)),
  ground (arith, +ℤ_parts v (negsuc 0), -ℤ_parts v (pos 1)),
  ground (arith, +ℤ_parts v (negsuc 0), +ℤ_parts v (pos 1)),
)

forth :
    (v : ℤ) (w : ℕ)
    → leb_ℤ (pos 1) v ≡ true
    → ltb_ℤ (v +ℤ pos 1 +ℤ pos 1) (pos w -ℤ pos 1) ≡ true
    → Near v w (v +ℤ pos 1)
forth v w a b = (
  ground (arith, +ℤ_parts v (pos 1)),
  ground (arith, +ℤ_parts v (pos 1), +ℤ_parts (v +ℤ pos 1) (pos 1), -ℤ_parts (pos w) (pos 1)),
  ground (arith, +ℤ_parts v (pos 1), -ℤ_parts v (pos 1)),
  ground arith,
)

module _ (w h d : ℕ) (c : Position) where
  abbrev pub arrival : Level
  arrival = carve_landing_cells c (new_level w h d)

  abbrev around_rect : Rect
  around_rect = record {
    min_x = c.x -ℤ pos 1;
    min_y = c.y -ℤ pos 1;
    max_x = c.x +ℤ pos 1;
    max_y = c.y +ℤ pos 1;
  }

  arrival-fill : arrival ≡ fill around_rect floor (new_level w h d)
  unfolding carve_landing_cells fill
  arrival-fill = refl

  pub arrival-Joined : Central w h c → Joined arrival
  unfolding tile_walkable
  arrival-Joined m = subst Joined (sym arrival-fill) (
      fill-Joined w h d around_rect floor refl (ground (arith, m.right_of, -ℤ_parts c.x (pos 1)))
        (ground (arith, m.below, -ℤ_parts c.y (pos 1))))

  new_level_stairs : (new_level w h d).stairs ≡ []
  unfolding new_level
  new_level_stairs = refl

  pub arrival_stairs : arrival.stairs ≡ []
  unfolding tile_walkable
  arrival_stairs =
      subst (λ z. z.stairs ≡ []) (sym arrival-fill)
        ((fill_lem around_rect floor (new_level w h d) (new_level-IsSized w h d) refl).0.stairs
          ∙ new_level_stairs)

  new_bounds : (p : Position) → level_in_bounds (new_level w h d) p ≡ in_bounds w h p
  unfolding new_level level_in_bounds
  new_bounds p = refl

  arrival-open :
      (p : Position)
      → in_bounds w h p ≡ true
      → inside around_rect p ≡ true
      → walkable arrival p ≡ true
  unfolding tile_walkable
  arrival-open p b i =
      subst (λ z. walkable z p ≡ true) (sym arrival-fill)
        ((fill_lem around_rect floor (new_level w h d) (new_level-IsSized w h d) refl).1 p
          ∙ rw (new_bounds p, b, i) refl)

  pub walkable-arrival : Central w h c → walkable arrival c ≡ true
  unfolding inside in_bounds
  walkable-arrival m = arrival-open c (ground (arith, m.right_of, m.below, m.left_of, m.above)) (
      ground (
        arith,
        -ℤ_parts c.x (pos 1),
        -ℤ_parts c.y (pos 1),
        +ℤ_parts c.x (pos 1),
        +ℤ_parts c.y (pos 1),
      ))

  arrival-next : (p : Position) → Near c.x w p.x → Near c.y h p.y → walkable arrival p ≡ true
  unfolding inside in_bounds
  arrival-next p (a, b, e, f) (a', b', e', f') =
      arrival-open p (rw (a, a', b, b') refl) (rw (e, f, e', f') refl)

  arrival_size : (arrival.width ≡ w) × (arrival.height ≡ h)
  unfolding tile_walkable new_level
  arrival_size =
      subst (λ z. (z.width ≡ w) × (z.height ≡ h)) (sym arrival-fill)
        (
          (fill_lem around_rect floor (new_level w h d) (new_level-IsSized w h d) refl).0.width,
          (fill_lem around_rect floor (new_level w h d) (new_level-IsSized w h d) refl).0.height,
        )

  arrival-carvable :
      (p : Position)
      → carvable arrival p ≡ true
      → (leb_ℤ (pos 1) p.x ≡ true)
        × (leb_ℤ (pos 1) p.y ≡ true)
        × (ltb_ℤ p.x (pos w -ℤ pos 1) ≡ true)
        × (ltb_ℤ p.y (pos h -ℤ pos 1) ≡ true)
  unfolding carvable
  arrival-carvable p e = ground (arith, arrival_size)

  -- The cell next to the landing can be walked on if the one behind it can be carved.
  pub arrival_exit :
      (e : Direction)
      → Central w h c
      → carvable arrival (ahead (ahead c e) e) ≡ true
      → walkable arrival (ahead c e) ≡ true
  unfolding ahead delta
  arrival_exit north m k =
      arrival-next (ahead c north) (unmoved c.x w m.right_of m.left_of) (back c.y h m.below m.above)
  arrival_exit east m k =
      arrival-next (ahead c east)
        (forth c.x w m.right_of (arrival-carvable (ahead (ahead c east) east) k).2)
        (unmoved c.y h m.below m.above)
  arrival_exit south m k =
      arrival-next (ahead c south) (unmoved c.x w m.right_of m.left_of)
        (forth c.y h m.below (arrival-carvable (ahead (ahead c south) south) k).3)
  arrival_exit west m k =
      arrival-next (ahead c west) (back c.x w m.right_of m.left_of) (unmoved c.y h m.below m.above)

-- The seeds of a landing leave the levels, and stand where one can walk.
pub seed-Laid :
    (entrance : Position) (i : ℕ) (p : Position) (l : Level) (ds : List Direction) (g : Generator)
    → get_elem? g.levels i ≡ some l
    → ((d : Direction) → carvable l (ahead (ahead p d) d) ≡ true → walkable l (ahead p d) ≡ true)
    → Laid entrance g
    → Laid entrance (seed i p l ds g) × ((seed i p l ds g).levels ≡ g.levels)
unfolding seed push
seed-Laid entrance i p l [] g h o s = (s, refl)
seed-Laid entrance i p l (d ∷ ds) g h o s = elim (Bool-cases (carvable l (ahead (ahead p d) d))) [
  | inr e ↦ subst Seeded (sym (rw e refl)) (seed-Laid entrance i p l ds g h o s)
  | inl e ↦ subst Seeded (sym (rw e refl)) (
      seed-Laid entrance i p l ds (push (record { level = i; at = ahead p d; dir = d }) g) h o
        (record {
          joined = s.joined;
          rooted =
              All-append (Rooted g.levels) g.frontier
                (record { level = i; at = ahead p d; dir = d }) s.rooted (l, h, o d e);
          entered = s.entered;
        }))
]
  where
    Seeded : Generator → Type 0
    Seeded z = Laid entrance (seed i p l ds z) × ((seed i p l ds z).levels ≡ g.levels)
