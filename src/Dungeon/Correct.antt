-- ===== src/Dungeon/Correct.antt =====
-- master/internal/dungeon/generator.go: the whole generator.
use layforge.Prelude.{
  ℕ, zero, suc, ◌+◌, ◌<◌, ◌≡◌, refl, sym, subst, inl, inr, Bool, true, false, not, Option, none,
  some, List, [], ◌∷◌, ◌++◌, Bool-cases, arith, if◌then◌else◌, ltb, leb, ◌==◌, length, length-set,
  get_elem?, set, ◌∈◌, ◌≤◌, ◌&&◌, ◌||◌, pos, pos_part, leb_ℤ, Position, Rand, Draw, Draws, draw,
  draw-then, bind-Draws, if-Draws, pure, ◌>>=◌,
}
use layforge.Region.{Beside, Linked, Linked-end}
use layforge.Dungeon.Level.{
  tile_walkable, stairs_down, up, Stair, Level, level_set, level_in_bounds, walkable, carvable,
  Dungeon,
}
use layforge.Dungeon.Shape.{
  Direction, north, east, south, west, ahead, RoomSize, carve_landing_cells,
}
use layforge.Dungeon.Generator.{
  Options, malformed, budget_of, ExpansionPoint, Generator, on_level, with_level, new_level, seed,
  landing, carve_landing, frontier_soft_cap,
}
use layforge.Dungeon.Generator.Rooms.{grow_secret_room}
use layforge.Dungeon.Generator.Growth.{
  grow_passage, grow_chamber, join_stairs, opened, descend, stairs_on, grow_stairs, dead_end,
  grow_by, grow_on, grow, expand, dig, generate,
}
use layforge.Dungeon.Extends.{Extends, level_set-Extends, level_set-Linked, Beside-ahead}
use layforge.Dungeon.Sound.{
  Joined, Standing, Rooted, Matched, Sound, with_level-Sound, with_level_self, on_level-Draws,
  pop-Sound,
}
use layforge.Dungeon.Stairs.{Laid, append-Laid, get_elem?-snoc, set-snoc}
use layforge.Dungeon.Joining.{joined-Sound}
use layforge.Dungeon.Arrival.{
  Central, middle, landing-Central, landing_depth, arrival, arrival-Joined, arrival_stairs,
  walkable-arrival, arrival_exit, seed-Laid,
}
use layforge.Dungeon.Passages.{grow_passage-Draws}
use layforge.Dungeon.Placing.{grow_chamber-Draws, grow_secret_room-Draws}

abbrev compass : List Direction
compass = north ∷ east ∷ south ∷ west ∷ []

-- The landing at `z`, with the generator once the levels are `ls`.
abbrev landed : ℕ → Position → Level → List Level → List ExpansionPoint → Position × Generator
landed i z l ls front = (z, seed i z l compass (record { levels = ls; frontier = front }))

-- A landing on a new last level, after which that level replaces the new one.
carve_landing-Draws :
    {S : Type 0} (w h d : ℕ) (c p : Position) (ls : List Level) (front : List ExpansionPoint)
    (s : S)
    → landing p (new_level w h d) ≡ c
    → Draws
        (λ r. r ≡ landed (length ls) c (arrival w h d c) (ls ++ arrival w h d c ∷ []) front)
        (carve_landing
          (length ls)
          p
          (record { levels = ls ++ new_level w h d ∷ []; frontier = front })
          s)
unfolding carve_landing with_level
carve_landing-Draws w h d c p ls front s e =
    on_level-Draws
      (λ r. r ≡ landed (length ls) c (arrival w h d c) (ls ++ arrival w h d c ∷ []) front)
      (length ls) (record { levels = ls ++ new_level w h d ∷ []; frontier = front })
      (new_level w h d)
      (λ l. pure (
        landed (length ls) (landing p l) (carve_landing_cells (landing p l) l)
          (set (ls ++ new_level w h d ∷ []) (length ls) (carve_landing_cells (landing p l) l))
          front))
      s (get_elem?-snoc ls (new_level w h d))
      (subst
        (λ z.
          landed (length ls) z (arrival w h d z)
            (set (ls ++ new_level w h d ∷ []) (length ls) (arrival w h d z)) front
          ≡ landed (length ls) c (arrival w h d c) (ls ++ arrival w h d c ∷ []) front)
        (sym e)
        (subst
          (λ z.
            landed (length ls) c (arrival w h d c) z front
            ≡ landed (length ls) c (arrival w h d c) (ls ++ arrival w h d c ∷ []) front)
          (sym (set-snoc ls (new_level w h d) (arrival w h d c))) refl))

-- The stairs depend on the levels alone.
refront :
    (max_levels : ℕ) (entrance : Position) (g h : Generator)
    → Sound max_levels entrance g
    → Laid entrance h
    → h.levels ≡ g.levels
    → Sound max_levels entrance h
refront max_levels entrance g h f s e = record {
  joined = s.joined;
  rooted = s.rooted;
  entered = s.entered;
  anchored = λ i l st q. f.anchored i l st (subst (λ z. get_elem? z i ≡ some l) e q);
  paired = λ i l st q n.
      subst (λ z. Matched z i st) (sym e)
        (f.paired i l st (subst (λ z. get_elem? z i ≡ some l) e q) n);
  arrived = λ i l q. f.arrived i l (subst (λ z. get_elem? z (suc i) ≡ some l) e q);
  capped = subst (λ z. length z ≤ max_levels) (sym e) f.capped;
}

module _ (rand : Rand) (width height max_levels : ℕ) (size : RoomSize) (wide : 3 ≤ width)
    (tall : 3 ≤ height) where
  abbrev pub entry : Position
  entry = landing (middle width height) (new_level width height 0)

  abbrev Good : Generator → Type 0
  Good = Sound max_levels entry

  central : Central width height entry
  central = landing-Central width height 0 wide tall

  -- The new level below, with the landing's expansion points and the stairs that lead to it.
  descend-Draws :
      (xp : ExpansionPoint) (s : Position) (l : Level) (g : Generator) (t : rand.Source)
      → Good g
      → get_elem? g.levels xp.level ≡ some l
      → walkable l xp.at ≡ true
      → s ≡ ahead xp.at xp.dir
      → carvable l s ≡ true
      → length g.levels < max_levels
      → Draws Good (descend rand width height max_levels size xp s l g t)
  unfolding descend opened with_level tile_walkable join_stairs
  descend-Draws xp s l g t f h w e cv lt = go
    where
      l1 : Level
      l1 = level_set l s stairs_down

      beside : Beside xp.at s
      beside = subst (Beside xp.at) (sym e) (Beside-ahead xp.at xp.dir)

      step : Extends xp.at l l1
      step = level_set-Extends xp.at s l stairs_down (f.joined xp.level l h).sized w cv beside refl

      link : Linked (walkable l1) xp.at s
      link = level_set-Linked xp.at s l stairs_down (f.joined xp.level l h).sized w cv beside refl

      ls : List Level
      ls = set g.levels xp.level l1

      same_length : length ls ≡ length g.levels
      same_length = length-set g.levels xp.level l1

      sound : Sound max_levels entry (record { levels = ls; frontier = g.frontier })
      sound = with_level-Sound max_levels entry xp.level xp.at l l1 g f h w step

      d : ℕ
      d = l.depth + 1

      child : Level
      child = arrival width height d entry

      g2 : Generator
      g2 =
          seed (length ls) entry child compass
            (record { levels = ls ++ child ∷ []; frontier = g.frontier })

      seeded : Laid entry g2 × (g2.levels ≡ ls ++ child ∷ [])
      seeded =
          seed-Laid entry (length ls) entry child compass
            (record { levels = ls ++ child ∷ []; frontier = g.frontier }) (get_elem?-snoc ls child)
            (λ dir k. arrival_exit width height d entry dir central k)
            (append-Laid entry child (record { levels = ls; frontier = g.frontier })
              (record { joined = sound.joined; rooted = sound.rooted; entered = sound.entered })
              (arrival-Joined width height d entry central))

      laid : Laid entry (record { levels = ls ++ child ∷ []; frontier = g2.frontier })
      laid =
          subst (λ z. Laid entry (record { levels = z; frontier = g2.frontier })) seeded.1 seeded.0

      final :
          Good (join_stairs rand width height max_levels size xp s l1 (length ls) (entry, g2) child)
      final =
          subst
            (λ z. Good (
              join_stairs rand width height max_levels size xp s l1 (length ls)
                (entry, record { levels = z; frontier = g2.frontier }) child))
            (sym seeded.1)
            (joined-Sound max_levels entry ls g.frontier g2.frontier l1 child xp.level s entry sound
              laid (arrival_stairs width height d entry) (with_level_self xp.level l l1 g h)
              (Linked-end link) (walkable-arrival width height d entry central)
              (omega (arith, same_length)))

      -- The rest of `descend`, at an index for the new level.
      rest : ℕ → Position × Generator → Draw rand.Source Generator
      rest n p =
          on_level n p.1 (λ m. pure (join_stairs rand width height max_levels size xp s l1 n p m))

      Result : ℕ → Type 0
      Result n = Draws Good (
          (carve_landing n (middle width height)
                (record { levels = ls ++ new_level width height d ∷ []; frontier = g.frontier })
              >>= rest n)
            t)

      rest-Draws :
          (p : Position × Generator) (t' : rand.Source)
          → p ≡ (entry, g2)
          → Draws Good (rest (length ls) p t')
      rest-Draws p t' q =
          subst (λ z. Draws Good (rest (length ls) z t')) (sym q)
            (on_level-Draws Good (length ls) g2 child
              (λ m.
                pure
                  (join_stairs rand width height max_levels size xp s l1 (length ls) (entry, g2) m))
              t'
              (subst (λ z. get_elem? z (length ls) ≡ some child) (sym seeded.1)
                (get_elem?-snoc ls child))
              final)

      go : Draws Good (descend rand width height max_levels size xp s l g t)
      go = subst Result same_length (
          bind-Draws (λ r. r ≡ (entry, g2)) Good
            (carve_landing (length ls) (middle width height)
              (record { levels = ls ++ new_level width height d ∷ []; frontier = g.frontier }))
            (rest (length ls)) t
            (carve_landing-Draws width height d entry (middle width height) ls g.frontier t
              (landing_depth width height d 0 (middle width height)))
            rest-Draws)

  stairs_on-Draws :
      (xp : ExpansionPoint) (g : Generator) (l : Level) (t : rand.Source)
      → Good g
      → get_elem? g.levels xp.level ≡ some l
      → walkable l xp.at ≡ true
      → length g.levels < max_levels
      → Draws Good (stairs_on rand width height max_levels size xp g l t)
  unfolding stairs_on
  stairs_on-Draws xp g l t f h w lt = elim (Bool-cases (carvable l (ahead xp.at xp.dir))) [
    | inl e ↦ rw e (descend-Draws xp (ahead xp.at xp.dir) l g t f h w refl e lt)
    | inr e ↦ rw e f
  ]

  grow_stairs-Draws :
      (xp : ExpansionPoint) (g : Generator) (t : rand.Source)
      → Good g
      → Rooted g.levels xp
      → Draws Good (grow_stairs rand width height max_levels size xp g t)
  unfolding grow_stairs
  grow_stairs-Draws xp g t f (l, h, w) = elim (Bool-cases (leb max_levels (length g.levels))) [
    | inl e ↦ rw e f
    | inr e ↦ rw e (
        on_level-Draws Good xp.level g l (stairs_on rand width height max_levels size xp g) t h
          (stairs_on-Draws xp g l t f h w (ground arith)))
  ]

  dead_end-Draws :
      (crowded : Bool) (xp : ExpansionPoint) (g : Generator) (t : rand.Source)
      → Good g
      → Rooted g.levels xp
      → Draws Good (dead_end rand width height max_levels size crowded xp g t)
  unfolding dead_end
  dead_end-Draws crowded xp g t f r = if-Draws crowded (pure g) (draw rand 4 >>= hides) t Good f (
      draw-then rand 4 Good hides t (omega arith) (λ k t' lt.
        if-Draws (k == 0) (grow_secret_room rand xp g >>= λ st. pure st.1) (pure g) t' Good
          (bind-Draws {A = Bool × Generator} (λ st. Good st.1) Good (grow_secret_room rand xp g)
            (λ st. pure st.1) t' (grow_secret_room-Draws rand max_levels entry xp g t' f r)
            (λ st t'' q. q))
          f))
    where
      hides : ℕ → Draw rand.Source Generator
      hides k = if k == 0 then (grow_secret_room rand xp g >>= λ st. pure st.1) else pure g

  grow_by-Draws :
      (crowded : Bool) (roll : ℕ) (xp : ExpansionPoint) (g : Generator) (t : rand.Source)
      → Good g
      → Rooted g.levels xp
      → Draws Good (grow_by rand width height max_levels size crowded roll xp g t)
  unfolding grow_by
  grow_by-Draws crowded roll xp g t f r =
      if-Draws (ltb roll 55 || crowded && ltb roll 95) (grow_passage rand xp g)
        (if ltb roll 60
          then dead_end rand width height max_levels size crowded xp g
          else if ltb roll 92 && not crowded
          then grow_chamber rand size xp g
          else if not crowded
          then grow_stairs rand width height max_levels size xp g
          else grow_passage rand xp g)
        t Good passage
        (if-Draws (ltb roll 60) (dead_end rand width height max_levels size crowded xp g)
          (if ltb roll 92 && not crowded
            then grow_chamber rand size xp g
            else if not crowded
            then grow_stairs rand width height max_levels size xp g
            else grow_passage rand xp g)
          t Good (dead_end-Draws crowded xp g t f r)
          (if-Draws (ltb roll 92 && not crowded) (grow_chamber rand size xp g)
            (if not crowded
              then grow_stairs rand width height max_levels size xp g
              else grow_passage rand xp g)
            t Good (grow_chamber-Draws rand max_levels entry size xp g t f r)
            (if-Draws (not crowded) (grow_stairs rand width height max_levels size xp g)
              (grow_passage rand xp g) t Good (grow_stairs-Draws xp g t f r) passage)))
    where
      passage : Draws Good (grow_passage rand xp g t)
      passage = grow_passage-Draws rand max_levels entry xp g t f r

  grow-Draws :
      (xp : ExpansionPoint) (g : Generator) (t : rand.Source)
      → Good g
      → Rooted g.levels xp
      → Draws Good (grow rand width height max_levels size xp g t)
  unfolding grow grow_on
  grow-Draws xp g t f (l, h, w) =
      on_level-Draws Good xp.level g l (grow_on rand width height max_levels size xp g) t h (
        if-Draws (not (level_in_bounds l xp.at)) (pure g) _ t Good f (
          if-Draws (walkable l (ahead xp.at xp.dir)) (pure g) (draw rand 100 >>= by) t Good f (
            draw-then rand 100 Good by t (omega arith) (λ k t' lt.
              grow_by-Draws (leb frontier_soft_cap (length g.frontier)) k xp g t' f (l, h, w)))))
    where
      by : ℕ → Draw rand.Source Generator
      by k =
          grow_by rand width height max_levels size (leb frontier_soft_cap (length g.frontier)) k xp
            g

  -- The loop of `Generate`, whatever the budget.
  expand-Draws :
      (budget : ℕ) (g : Generator) (t : rand.Source)
      → Good g
      → Draws Good (expand rand width height max_levels size budget g t)
  unfolding expand
  expand-Draws zero g t f = f
  expand-Draws (suc n) g t f = next g.frontier refl (λ h t' q. expand-Draws n h t' q)
    where
      after : List ExpansionPoint → Draw rand.Source Generator
      after front = elim front [
        | [] ↦ pure g
        | xp ∷ rest ↦
            grow rand width height max_levels size xp (record g { frontier = rest })
            >>= expand rand width height max_levels size n
      ]

      next :
          (front : List ExpansionPoint)
          → g.frontier ≡ front
          → ((h : Generator) (t' : rand.Source)
              → Good h
              → Draws Good (expand rand width height max_levels size n h t'))
          → Draws Good (after front t)
      next [] e ih = f
      next (xp ∷ rest) e ih =
          let (r, q) = pop-Sound max_levels entry xp rest g f e in
          bind-Draws Good Good
            (grow rand width height max_levels size xp (record g { frontier = rest }))
            (expand rand width height max_levels size n) t
            (grow-Draws xp (record g { frontier = rest }) t q r) ih

  -- The dungeon: its levels are sound with nothing left to grow.
  abbrev pub Sturdy : Dungeon → Type 0
  Sturdy d =
      (d.entrance ≡ entry) × Sound max_levels entry (record { levels = d.levels; frontier = [] })

  abbrev first : Level
  first = arrival width height 0 entry

  start-Sound : 1 ≤ max_levels → Good (record { levels = first ∷ []; frontier = [] })
  start-Sound one = record {
    joined = λ i l e. subst Joined (only i l e) (arrival-Joined width height 0 entry central);
    rooted = tt;
    entered = (first, refl, walkable-arrival width height 0 entry central);
    anchored = λ i l st e n. absurd (bare i l st e n);
    paired = λ i l st e n. absurd (bare i l st e n);
    arrived = λ i l e. absurd (ground arith);
    capped = omega arith;
  }
    where
      only : (i : ℕ) (l : Level) → get_elem? (first ∷ []) i ≡ some l → first ≡ l
      only zero l e = ground arith
      only (suc i) l e = absurd (ground arith)

      bare :
          (i : ℕ) (l : Level) (st : Stair) → get_elem? (first ∷ []) i ≡ some l → st ∈ l.stairs → ⊥
      bare i l st e n =
          subst (λ z. st ∈ z) (arrival_stairs width height 0 entry)
            (subst (λ z. st ∈ z.stairs) (sym (only i l e)) n)

  pub dig-Draws :
      (budget : ℕ) (t : rand.Source)
      → 1 ≤ max_levels
      → Draws Sturdy (dig rand width height max_levels size budget t)
  unfolding dig
  dig-Draws budget t one =
      bind-Draws (λ r. r ≡ landed 0 entry first (first ∷ []) []) Sturdy
        (carve_landing 0 (middle width height)
          (record { levels = new_level width height 0 ∷ []; frontier = [] }))
        grown t (carve_landing-Draws width height 0 entry (middle width height) [] [] t refl)
        (λ r t' e.
          subst (λ z. Draws Sturdy (grown z t')) (sym e)
            (bind-Draws Good Sturdy
              (expand rand width height max_levels size budget
                (landed 0 entry first (first ∷ []) []).1)
              (λ g. pure (record { levels = g.levels; entrance = entry })) t'
              (expand-Draws budget (landed 0 entry first (first ∷ []) []).1 t' seeded)
              (λ g t'' q. (
                refl,
                record {
                  joined = q.joined;
                  rooted = tt;
                  entered = q.entered;
                  anchored = q.anchored;
                  paired = q.paired;
                  arrived = q.arrived;
                  capped = q.capped;
                },
              ))))
    where
      grown : Position × Generator → Draw rand.Source Dungeon
      grown r = expand rand width height max_levels size budget r.1 >>= λ g.
          pure (record { levels = g.levels; entrance = r.0 })

      seeded : Good (landed 0 entry first (first ∷ []) []).1
      seeded =
          let f = start-Sound one in
          let (a, b) =
            seed-Laid entry 0 entry first compass (record { levels = first ∷ []; frontier = [] })
              refl (λ dir k. arrival_exit width height 0 entry dir central k)
              (record { joined = f.joined; rooted = f.rooted; entered = f.entered }) in
          refront max_levels entry (record { levels = first ∷ []; frontier = [] })
            (landed 0 entry first (first ∷ []) []).1 f a b

-- A dungeon of at most that many levels. On each level any two cells to walk on are linked by steps
-- north, east, south and west over such cells; the entrance and the stairs stand on such cells; the
-- stairs of a level lead to a level with stairs of the other direction that lead back; and each
-- level but the first has stairs up.
pub record IsConnected (max_levels : ℕ) (d : Dungeon) : Type 0 where
  pub joined : (i : ℕ) (l : Level) → get_elem? d.levels i ≡ some l → Joined l
  pub entered : Standing d.levels 0 d.entrance
  pub anchored :
      (i : ℕ) (l : Level) (st : Stair)
      → get_elem? d.levels i ≡ some l
      → st ∈ l.stairs
      → walkable l st.at ≡ true
  pub paired :
      (i : ℕ) (l : Level) (st : Stair)
      → get_elem? d.levels i ≡ some l
      → st ∈ l.stairs
      → Matched d.levels i st
  pub arrived :
      (i : ℕ) (l : Level)
      → get_elem? d.levels (suc i) ≡ some l
      → (st : Stair) × (st ∈ l.stairs) × (st.dir ≡ up)
  pub capped : length d.levels ≤ max_levels

positive : (opts : Options) → malformed opts ≡ false → 1 ≤ pos_part opts.max_levels
unfolding malformed
positive opts e = ground arith

-- What `Generate` owes for its options: nil exactly when they are malformed.
abbrev pub Delivers : Options → Option Dungeon → Type 0
Delivers opts none = malformed opts ≡ true
Delivers opts (some d) = (malformed opts ≡ false) × IsConnected (pos_part opts.max_levels) d

-- For every source of random numbers and all options, where options that are not malformed ask for
-- levels of at least 3 by 3 cells, `Generate` does not panic, and returns nil exactly for malformed
-- options. A dungeon that it returns has at most the levels asked for. On each of its levels any two
-- cells to walk on are linked by steps north, east, south and west over such cells; the entrance and
-- all stairs stand on such cells; the stairs lead to a level that has stairs of the other direction
-- leading back; and each level but the first has stairs up.
pub generate-Draws :
    (rand : Rand) (opts : Options) (s : rand.Source)
    → (malformed opts ≡ false
        → (leb_ℤ (pos 3) opts.level_width ≡ true) × (leb_ℤ (pos 3) opts.level_height ≡ true))
    → Draws (Delivers opts) (generate rand opts s)
unfolding generate
generate-Draws rand opts s h = elim (Bool-cases (malformed opts)) [
  | inl e ↦ rw e e
  | inr e ↦ rw e (
      let wide : 3 ≤ pos_part opts.level_width = ground (arith, h) in
      let tall : 3 ≤ pos_part opts.level_height = ground (arith, h) in
      bind-Draws
        (Sturdy rand (pos_part opts.level_width) (pos_part opts.level_height)
          (pos_part opts.max_levels) opts.room_size wide tall)
        (Delivers opts)
        (dig rand (pos_part opts.level_width) (pos_part opts.level_height)
          (pos_part opts.max_levels) opts.room_size (budget_of opts))
        (λ d. pure (some d)) s
        (dig-Draws rand (pos_part opts.level_width) (pos_part opts.level_height)
          (pos_part opts.max_levels) opts.room_size wide tall (budget_of opts) s (positive opts e))
        (λ d s' q. (
          e,
          record {
            joined = q.1.joined;
            entered = subst (Standing d.levels 0) (sym q.0) q.1.entered;
            anchored = q.1.anchored;
            paired = q.1.paired;
            arrived = q.1.arrived;
            capped = q.1.capped;
          },
        )))
]
