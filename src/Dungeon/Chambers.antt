-- ===== src/Dungeon/Chambers.antt =====
-- master/internal/dungeon/generator.go: the exits of a chamber keep the generator sound.
use layforge.Prelude.{
  ℕ, zero, suc, ◌+◌, ◌≡◌, refl, sym, subst, inl, inr, true, some, List, [], ◌∷◌, Bool-cases, arith,
  if◌then◌else◌, ltb, leb, ◌==◌, ℤ, pos, ◌+ℤ◌, ◌-ℤ◌, +ℤ_parts, -ℤ_parts, ltb_ℤ, leb_ℤ, get_elem?,
  Position, Rand, Draws, draw, draw-then, bind-Draws, if-Draws, pure, ◌>>=◌,
}
use layforge.Region.{Beside, Linked, Linked-end}
use layforge.Dungeon.Level.{
  TileType, door, secret_door, tile_walkable, Level, level_set, walkable, carvable,
}
use layforge.Dungeon.Shape.{Rect, Direction, north, east, south, west, around, same_direction}
use layforge.Dungeon.Generator.{Generator, on_level, with_level, enqueue_on}
use layforge.Dungeon.Generator.Rooms.{
  intn, try_wall, exit_fits, exit_door, punch, exit_attempts, exit_walls, exits_in, chamber_exits,
}
use layforge.Dungeon.Extends.{Extends, level_set-Extends, level_set-Linked}
use layforge.Dungeon.Rects.{inside}
use layforge.Dungeon.Features.{intn-Draws, span}
use layforge.Dungeon.Sound.{
  Sound, SoundWith, with_level-Sound, with_level_self, on_level-Draws, enqueue_on-Sound,
}

-- The rectangle has a cell.
pub record Proper (r : Rect) : Type 0 where
  pub wide : leb_ℤ r.min_x r.max_x ≡ true
  pub tall : leb_ℤ r.min_y r.max_y ≡ true

-- The cell is next to a cell of the rectangle.
abbrev Against : Rect → Position → Type 0
Against r o = (c : Position) × (inside r c ≡ true) × Beside c o

-- Every cell of the rectangle can be walked on, on the level of that index.
abbrev pub Furnished : ℕ → Rect → List Level → Type 0
Furnished i r ls =
    (l : Level) × (get_elem? ls i ≡ some l)
    × ((p : Position) → inside r p ≡ true → walkable l p ≡ true)

east_of :
    (r : Rect) (y : ℤ)
    → Beside (record { x = r.max_x; y = y }) (record { x = r.max_x +ℤ pos 1; y = y })
unfolding Beside
east_of r y = ground (arith, +ℤ_parts r.max_x (pos 1))

west_of :
    (r : Rect) (y : ℤ)
    → Beside (record { x = r.min_x; y = y }) (record { x = r.min_x -ℤ pos 1; y = y })
unfolding Beside
west_of r y = ground (arith, -ℤ_parts r.min_x (pos 1))

south_of :
    (r : Rect) (x : ℤ)
    → Beside (record { x = x; y = r.max_y }) (record { x = x; y = r.max_y +ℤ pos 1 })
unfolding Beside
south_of r x = ground (arith, +ℤ_parts r.max_y (pos 1))

north_of :
    (r : Rect) (x : ℤ)
    → Beside (record { x = x; y = r.min_y }) (record { x = x; y = r.min_y -ℤ pos 1 })
unfolding Beside
north_of r x = ground (arith, -ℤ_parts r.min_y (pos 1))

along :
    (a b k : ℤ)
    → leb_ℤ (pos 0) k ≡ true
    → ltb_ℤ k (b -ℤ a +ℤ pos 1) ≡ true
    → (leb_ℤ a (a +ℤ k) ≡ true) × (leb_ℤ (a +ℤ k) b ≡ true)
along a b k h m = (
  ground (arith, +ℤ_parts a k),
  ground (arith, +ℤ_parts a k, -ℤ_parts b a, +ℤ_parts (b -ℤ a) (pos 1)),
)

leb_refl : (a : ℤ) → leb_ℤ a a ≡ true
leb_refl a = ground arith

module _ (rand : Rand) where
  on_wall :
      (a b : ℤ) (Q : Position → Type 0) (f : ℤ → Position) (s : rand.Source)
      → leb_ℤ a b ≡ true
      → ((k : ℤ) → leb_ℤ a (a +ℤ k) ≡ true → leb_ℤ (a +ℤ k) b ≡ true → Q (f k))
      → Draws Q ((intn rand (b -ℤ a +ℤ pos 1) >>= λ k. pure (f k)) s)
  on_wall a b Q f s h g =
      bind-Draws (λ k. (leb_ℤ (pos 0) k ≡ true) × (ltb_ℤ k (b -ℤ a +ℤ pos 1) ≡ true)) Q
        (intn rand (b -ℤ a +ℤ pos 1)) (λ k. pure (f k)) s
        (intn-Draws rand (b -ℤ a +ℤ pos 1) s (span a b h))
        (λ k s' m. let (u, v) = along a b k m.0 m.1 in g k u v)

  try_wall-Draws :
      (r : Rect) (d : Direction) (s : rand.Source)
      → Proper r
      → Draws (Against r) (try_wall rand r d s)
  unfolding try_wall inside
  try_wall-Draws r north s p =
      on_wall r.min_x r.max_x (Against r) (λ k. record { x = r.min_x +ℤ k; y = r.min_y -ℤ pos 1 }) s
        p.wide
        (λ k u v. (
          record { x = r.min_x +ℤ k; y = r.min_y },
          rw (u, v, leb_refl r.min_y, p.tall) refl,
          north_of r (r.min_x +ℤ k),
        ))
  try_wall-Draws r south s p =
      on_wall r.min_x r.max_x (Against r) (λ k. record { x = r.min_x +ℤ k; y = r.max_y +ℤ pos 1 }) s
        p.wide
        (λ k u v. (
          record { x = r.min_x +ℤ k; y = r.max_y },
          rw (u, v, leb_refl r.max_y, p.tall) refl,
          south_of r (r.min_x +ℤ k),
        ))
  try_wall-Draws r west s p =
      on_wall r.min_y r.max_y (Against r) (λ k. record { x = r.min_x -ℤ pos 1; y = r.min_y +ℤ k }) s
        p.tall
        (λ k u v. (
          record { x = r.min_x; y = r.min_y +ℤ k },
          rw (u, v, leb_refl r.min_x, p.wide) refl,
          west_of r (r.min_y +ℤ k),
        ))
  try_wall-Draws r east s p =
      on_wall r.min_y r.max_y (Against r) (λ k. record { x = r.max_x +ℤ pos 1; y = r.min_y +ℤ k }) s
        p.tall
        (λ k u v. (
          record { x = r.max_x; y = r.min_y +ℤ k },
          rw (u, v, leb_refl r.max_x, p.wide) refl,
          east_of r (r.min_y +ℤ k),
        ))

  exit_door-Draws :
      (n : ℕ) (s : rand.Source) → Draws (λ t. tile_walkable t ≡ true) (exit_door rand n s)
  unfolding exit_door tile_walkable
  exit_door-Draws n s =
      if-Draws (ltb 0 n) (draw rand 6 >>= λ k. pure (if k == 0 then secret_door else door))
        (pure door) s (λ t. tile_walkable t ≡ true)
        (draw-then rand 6 (λ t. tile_walkable t ≡ true)
          (λ k. pure (if k == 0 then secret_door else door)) s (omega arith)
          (λ k s' lt. elim (Bool-cases (k == 0)) [ inl e ↦ rw e refl | inr e ↦ rw e refl ]))
        refl

  module _ (max_levels : ℕ) (entrance : Position) where
    -- The generator is sound, and the room can be walked on.
    abbrev pub Housed : ℕ → Rect → Generator → Type 0
    Housed i r g = Sound max_levels entrance g × Furnished i r g.levels

    -- The same of a generator that comes with a count of exits.
    abbrev Exited : ℕ → Rect → ℕ × Generator → Type 0
    Exited i r st = Housed i r st.1

    punch-Housed :
        (i : ℕ) (r : Rect) (o c : Position) (d : Direction) (t : TileType) (l : Level)
        (g : Generator)
        → Sound max_levels entrance g
        → get_elem? g.levels i ≡ some l
        → ((p : Position) → inside r p ≡ true → walkable l p ≡ true)
        → inside r c ≡ true
        → Beside c o
        → carvable l o ≡ true
        → tile_walkable t ≡ true
        → Housed i r (enqueue_on (level_set l o t) i o d (with_level i (level_set l o t) g))
    punch-Housed i r o c d t l g f h inn ic b cv tw = (
      kept.0,
      subst (Furnished i r) (sym kept.1) (level_set l o t, here, λ p m. step.grows p (inn p m)),
    )
      where
        step : Extends c l (level_set l o t)
        step = level_set-Extends c o l t (f.joined i l h).sized (inn c ic) cv b tw

        link : Linked (walkable (level_set l o t)) c o
        link = level_set-Linked c o l t (f.joined i l h).sized (inn c ic) cv b tw

        here : get_elem? (with_level i (level_set l o t) g).levels i ≡ some (level_set l o t)
        here = with_level_self i l (level_set l o t) g h

        kept :
            SoundWith max_levels entrance
              (with_level i (level_set l o t) g).levels
              (enqueue_on (level_set l o t) i o d (with_level i (level_set l o t) g))
        kept =
            enqueue_on-Sound max_levels entrance (level_set l o t) i o d
              (with_level i (level_set l o t) g)
              (with_level-Sound max_levels entrance i c l (level_set l o t) g f h (inn c ic) step)
              here (Linked-end link)

    exit_fits-carvable :
        (l : Level) (o : Position) (d : Direction) → exit_fits l o d ≡ true → carvable l o ≡ true
    unfolding exit_fits
    exit_fits-carvable l o d h = ground arith

    punch-Draws :
        (i : ℕ) (r : Rect) (o : Position) (d : Direction) (st : ℕ × Generator) (s : rand.Source)
        (l : Level)
        → Exited i r st
        → get_elem? st.1.levels i ≡ some l
        → exit_fits l o d ≡ true
        → Against r o
        → Draws (Exited i r) (punch rand i o d st s)
    unfolding punch
    punch-Draws i r o d (n, g) s l (f, (m, h, inn)) e fits (c, ic, b) =
        on_level-Draws (Exited i r) i g m
          (λ l. exit_door rand n >>= λ t.
            pure (suc n, enqueue_on (level_set l o t) i o d (with_level i (level_set l o t) g)))
          s h
          (bind-Draws (λ t. tile_walkable t ≡ true) (Exited i r) (exit_door rand n)
            (λ t.
              pure (suc n, enqueue_on (level_set m o t) i o d (with_level i (level_set m o t) g)))
            s (exit_door-Draws n s)
            (λ t s' tw.
              punch-Housed i r o c d t m g f h inn ic b
                (exit_fits-carvable m o d (subst (λ z. exit_fits z o d ≡ true) same fits)) tw))
      where
        same : l ≡ m
        same = ground arith

    exit_attempts-Draws :
        (k i : ℕ) (r : Rect) (d : Direction) (st : ℕ × Generator) (s : rand.Source)
        → Proper r
        → Exited i r st
        → Draws (Exited i r) (exit_attempts rand k i r d st s)
    unfolding exit_attempts
    exit_attempts-Draws zero i r d st s p f = f
    exit_attempts-Draws (suc k) i r d st s p f =
        bind-Draws (Against r) (Exited i r) (try_wall rand r d)
          (λ o.
            on_level i st.1
              λ l. if exit_fits l o d then punch rand i o d st else exit_attempts rand k i r d st)
          s (try_wall-Draws r d s p)
          (λ o s' a.
            on_level-Draws (Exited i r) i st.1 f.1.0
              (λ l. if exit_fits l o d then punch rand i o d st else exit_attempts rand k i r d st)
              s' f.1.1
              (elim (Bool-cases (exit_fits f.1.0 o d)) [
                | inl e ↦ rw e (punch-Draws i r o d st s' f.1.0 f f.1.1 e a)
                | inr e ↦ rw e (exit_attempts-Draws k i r d st s' p f)
              ]))

    exit_walls-Draws :
        (want i : ℕ) (r : Rect) (entry : Direction) (ds : List Direction) (st : ℕ × Generator)
        (s : rand.Source)
        → Proper r
        → Exited i r st
        → Draws (Exited i r) (exit_walls rand want i r entry ds st s)
    unfolding exit_walls
    exit_walls-Draws want i r entry [] st s p f = f
    exit_walls-Draws want i r entry (d ∷ ds) st s p f =
        if-Draws (leb want st.0) (pure st)
          (if same_direction d entry
            then exit_walls rand want i r entry ds st
            else exit_attempts rand 6 i r d st >>= exit_walls rand want i r entry ds)
          s (Exited i r) f
          (if-Draws (same_direction d entry) (exit_walls rand want i r entry ds st)
            (exit_attempts rand 6 i r d st >>= exit_walls rand want i r entry ds) s (Exited i r)
            (exit_walls-Draws want i r entry ds st s p f)
            (bind-Draws (Exited i r) (Exited i r) (exit_attempts rand 6 i r d st)
              (exit_walls rand want i r entry ds) s (exit_attempts-Draws 6 i r d st s p f)
              (λ st' s' f'. exit_walls-Draws want i r entry ds st' s' p f')))

    -- The exits of a chamber.
    pub chamber_exits-Draws :
        (i : ℕ) (r : Rect) (d : Direction) (g : Generator) (s : rand.Source)
        → Proper r
        → Housed i r g
        → Draws (Sound max_levels entrance) (chamber_exits rand i r d g s)
    unfolding chamber_exits exits_in
    chamber_exits-Draws i r d g s p f =
        draw-then rand 3 (Sound max_levels entrance)
          (λ k. exit_walls rand (1 + k) i r (around d) walls (0, g) >>= λ st. pure st.1) _
          (omega arith)
          (λ k s' lt.
            bind-Draws (Exited i r) (Sound max_levels entrance)
              (exit_walls rand (1 + k) i r (around d) walls (0, g)) (λ st. pure st.1) s'
              (exit_walls-Draws (1 + k) i r (around d) walls (0, g) s' p f) (λ st s'' q. q.0))
      where
        walls : List Direction
        walls = (rand.shuffle (north ∷ south ∷ west ∷ east ∷ []) s).0
