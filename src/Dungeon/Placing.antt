-- ===== src/Dungeon/Placing.antt =====
-- master/internal/dungeon/generator.go: placing a chamber or a vault keeps the generator sound.
use layforge.Prelude.{
  ℕ, ◌+◌, ◌<◌, ◌≡◌, refl, sym, subst, ◌∙◌, inl, inr, Bool, true, false, Option, none, some,
  Bool-cases, arith, if◌then◌else◌, ltb, ◌==◌, get_elem?, Position, Rand, Draws, draw, draw-then,
  bind-Draws, if-Draws, pure, ◌>>=◌,
}
use layforge.Dungeon.Level.{
  TileType, floor, door, secret_door, chest, tile_walkable, tile_at, Level, level_set,
  level_in_bounds, walkable, carvable-in_bounds, IsSized, level_set-IsSized,
}
use layforge.Dungeon.Shape.{Rect, ahead, RoomSize, average, cramped, huge, rect_free}
use layforge.Dungeon.Generator.{
  ExpansionPoint, Generator, on_level, with_level, add_feature, center,
}
use layforge.Dungeon.Generator.Rooms.{
  d3, two_d3, roll_side, chamber_dims, lay_out, placeable_rect, scatter_features, chamber_exits,
  chamber_at, chamber_on, try_chamber, vault_features, vault_at, vault_on, grow_secret_room,
}
use layforge.Dungeon.Generator.Growth.{grow_chamber, grow_passage}
use layforge.Dungeon.Extends.{Beside-ahead}
use layforge.Dungeon.Rects.{inside, fill_lem}
use layforge.Dungeon.Rooms.{
  with_room, with_room-Extends, Ahead, Fits, lay_out-Draws, rect_free-free, inside-ringed,
  free_parts,
}
use layforge.Dungeon.Features.{
  Decorated, Extends-Decorated, Decorated-trans, Decorated-add_feature, scatter_features-Draws,
  vault_features-Draws,
}
use layforge.Dungeon.Chambers.{Proper, Housed, chamber_exits-Draws}
use layforge.Dungeon.Sound.{Rooted, Sound, with_level-Sound, with_level_self, on_level-Draws}
use layforge.Dungeon.Passages.{grow_passage-Draws}

-- What `placeableRect` found fits behind the door at the position ahead.
abbrev Placed : Level → ExpansionPoint → Option Rect → Type 0
Placed l xp none = Unit
Placed l xp (some r) = Ahead (ahead xp.at xp.dir) xp.dir r × (rect_free r l ≡ true)

inside-Proper : (r : Rect) (p : Position) → inside r p ≡ true → Proper r
unfolding inside
inside-Proper r p h = record { wide = ground arith; tall = ground arith }

rect_free-in_bounds :
    (r : Rect) (l : Level) (p : Position)
    → rect_free r l ≡ true
    → inside r p ≡ true
    → level_in_bounds l p ≡ true
rect_free-in_bounds r l p f i =
    carvable-in_bounds l p (free_parts l p (rect_free-free r p l f (inside-ringed r p i))).0

level_set_bounds :
    (l : Level) (q p : Position) (t : TileType)
    → level_in_bounds (level_set l q t) p ≡ level_in_bounds l p
unfolding level_in_bounds level_set
level_set_bounds l q p t = refl

with_room-walkable :
    (l : Level) (d p : Position) (t : TileType) (r : Rect)
    → IsSized l
    → rect_free r l ≡ true
    → inside r p ≡ true
    → walkable (with_room l d t r) p ≡ true
unfolding tile_walkable
with_room-walkable l d p t r s f i =
    (fill_lem r floor (level_set l d t) (level_set-IsSized l d t s) refl).1 p
    ∙ ground (arith, level_set_bounds l d p t, rect_free-in_bounds r l p f i)

Decorated-walkable :
    (l m : Level) (p : Position) → Decorated l m → walkable l p ≡ true → walkable m p ≡ true
unfolding walkable tile_at
Decorated-walkable l m p (fs, e) w = subst (λ z. walkable z p ≡ true) (sym e) w

door_walkable : tile_walkable door ≡ true
unfolding tile_walkable
door_walkable = refl

secret_door_walkable : tile_walkable secret_door ≡ true
unfolding tile_walkable
secret_door_walkable = refl

module _ (rand : Rand) where
  abbrev Positive : ℕ → Type 0
  Positive n = 0 < n

  d3-Draws : (s : rand.Source) → Draws Positive (d3 rand s)
  unfolding d3
  d3-Draws s =
      draw-then rand 3 Positive (λ k. pure (1 + k)) s (omega arith) (λ k s' lt. omega arith)

  two_d3-Draws : (s : rand.Source) → Draws Positive (two_d3 rand s)
  unfolding two_d3
  two_d3-Draws s =
      bind-Draws Positive Positive (d3 rand) (λ a. d3 rand >>= λ b. pure (a + b)) s (d3-Draws s)
        (λ a s' h.
          bind-Draws Positive Positive (d3 rand) (λ b. pure (a + b)) s' (d3-Draws s')
            (λ b s'' h'. omega arith))

  roll_side-Draws : (size : RoomSize) (s : rand.Source) → Draws Positive (roll_side rand size s)
  unfolding roll_side
  roll_side-Draws cramped s =
      draw-then rand 100 Positive
        (λ r.
          if ltb r 65
          then d3 rand
          else if ltb r 90
          then two_d3 rand
          else d3 rand >>= λ k. pure (k + 3))
        s (omega arith)
        (λ r s' lt.
          if-Draws (ltb r 65) (d3 rand)
            (if ltb r 90 then two_d3 rand else d3 rand >>= λ k. pure (k + 3)) s' Positive
            (d3-Draws s')
            (if-Draws (ltb r 90) (two_d3 rand) (d3 rand >>= λ k. pure (k + 3)) s' Positive
              (two_d3-Draws s')
              (bind-Draws Positive Positive (d3 rand) (λ k. pure (k + 3)) s' (d3-Draws s')
                (λ k s'' h. omega arith))))
  roll_side-Draws huge s =
      draw-then rand 2 Positive
        (λ r. if r == 0 then two_d3 rand else two_d3 rand >>= λ k. pure (k + 3)) s (omega arith)
        (λ r s' lt.
          if-Draws (r == 0) (two_d3 rand) (two_d3 rand >>= λ k. pure (k + 3)) s' Positive
            (two_d3-Draws s')
            (bind-Draws Positive Positive (two_d3 rand) (λ k. pure (k + 3)) s' (two_d3-Draws s')
              (λ k s'' h. omega arith)))
  roll_side-Draws average s = two_d3-Draws s

  abbrev Sides : ℕ × ℕ → Type 0
  Sides d = (0 < d.0) × (0 < d.1)

  chamber_dims-Draws : (size : RoomSize) (s : rand.Source) → Draws Sides (chamber_dims rand size s)
  unfolding chamber_dims
  chamber_dims-Draws size s =
      bind-Draws Positive Sides (roll_side rand size)
        (λ w. roll_side rand size >>= λ h. pure (w, h)) s (roll_side-Draws size s)
        (λ w s' a.
          bind-Draws Positive Sides (roll_side rand size) (λ h. pure (w, h)) s'
            (roll_side-Draws size s') (λ h s'' b. (a, b)))

  placeable_rect-Draws :
      (l : Level) (xp : ExpansionPoint) (w h : ℕ) (s : rand.Source)
      → 0 < w
      → 0 < h
      → Draws (Placed l xp) (placeable_rect rand l xp w h s)
  unfolding placeable_rect
  placeable_rect-Draws l xp w h s a b =
      bind-Draws (Fits (ahead xp.at xp.dir) xp.dir w h) (Placed l xp)
        (lay_out rand (ahead xp.at xp.dir) xp.dir w h)
        (λ r. pure (if rect_free r l then some r else none)) s
        (lay_out-Draws rand (ahead xp.at xp.dir) xp.dir w h s a b)
        (λ r s' front. elim (Bool-cases (rect_free r l)) [
          | inl e ↦ rw e (front.0, e)
          | inr e ↦ rw e tt
        ])

  module _ (max_levels : ℕ) (entrance : Position) where
    abbrev Good : Generator → Type 0
    Good = Sound max_levels entrance

    -- The generator that comes with a report is sound, and expansion points keep their place in it.
    abbrev pub Reported : ExpansionPoint → Bool × Generator → Type 0
    Reported xp st = Good st.1 × ((st.0 ≡ false) → Rooted st.1.levels xp)

    -- A room and its door, once decorated, on a sound generator.
    room-Housed :
        (xp : ExpansionPoint) (g : Generator) (l l' : Level) (t : TileType) (r : Rect)
        → Good g
        → get_elem? g.levels xp.level ≡ some l
        → walkable l xp.at ≡ true
        → tile_walkable t ≡ true
        → Ahead (ahead xp.at xp.dir) xp.dir r
        → rect_free r l ≡ true
        → Decorated (with_room l (ahead xp.at xp.dir) t r) l'
        → Housed rand max_levels entrance xp.level r (with_level xp.level l' g)
    room-Housed xp g l l' t r f h w tw front fr dec = (
      with_level-Sound max_levels entrance xp.level xp.at l l' g f h w (
          Extends-Decorated xp.at l (with_room l (ahead xp.at xp.dir) t r) l'
            (with_room-Extends xp.at (ahead xp.at xp.dir) (ahead (ahead xp.at xp.dir) xp.dir) t r l
              (f.joined xp.level l h).sized w (Beside-ahead xp.at xp.dir) tw fr front)
            dec),
      (
        l',
        with_level_self xp.level l l' g h,
        λ p i.
            Decorated-walkable (with_room l (ahead xp.at xp.dir) t r) l' p dec
              (with_room-walkable l (ahead xp.at xp.dir) p t r (f.joined xp.level l h).sized fr i),
      ),
    )

    chamber_at-Draws :
        (xp : ExpansionPoint) (g : Generator) (l : Level) (found : Option Rect) (s : rand.Source)
        → Good g
        → get_elem? g.levels xp.level ≡ some l
        → walkable l xp.at ≡ true
        → Placed l xp found
        → Draws (Reported xp) (chamber_at rand xp g l found s)
    unfolding chamber_at
    chamber_at-Draws xp g l none s f h w p = (f, λ e. (l, h, w))
    chamber_at-Draws xp g l (some r) s f h w (front, fr) =
        bind-Draws (Decorated (with_room l (ahead xp.at xp.dir) door r)) (Reported xp)
          (scatter_features rand r (with_room l (ahead xp.at xp.dir) door r))
          (λ l'. chamber_exits rand xp.level r xp.dir (with_level xp.level l' g) >>= λ g'.
            pure (true, g'))
          s (scatter_features-Draws rand r (with_room l (ahead xp.at xp.dir) door r) s)
          (λ l' s' dec.
            bind-Draws Good (Reported xp)
              (chamber_exits rand xp.level r xp.dir (with_level xp.level l' g))
              (λ g'. pure (true, g')) s'
              (chamber_exits-Draws rand max_levels entrance xp.level r xp.dir
                (with_level xp.level l' g) s'
                (inside-Proper r (ahead (ahead xp.at xp.dir) xp.dir) front.in_room)
                (room-Housed xp g l l' door r f h w door_walkable front fr dec))
              (λ g' s'' q. (q, λ e. absurd (ground arith))))

    try_chamber-Draws :
        (size : RoomSize) (xp : ExpansionPoint) (g : Generator) (s : rand.Source)
        → Good g
        → Rooted g.levels xp
        → Draws (Reported xp) (try_chamber rand size xp g s)
    unfolding try_chamber chamber_on
    try_chamber-Draws size xp g s f (l, h, w) =
        bind-Draws Sides (Reported xp) (chamber_dims rand size)
          (λ d. on_level xp.level g (chamber_on rand xp g d)) s (chamber_dims-Draws size s)
          (λ d s' p. on_level-Draws (Reported xp) xp.level g l (chamber_on rand xp g d) s' h (
            bind-Draws (Placed l xp) (Reported xp) (placeable_rect rand l xp d.0 d.1)
              (chamber_at rand xp g l) s' (placeable_rect-Draws l xp d.0 d.1 s' p.0 p.1)
              (λ found s'' q. chamber_at-Draws xp g l found s'' f h w q)))

    pub grow_chamber-Draws :
        (size : RoomSize) (xp : ExpansionPoint) (g : Generator) (s : rand.Source)
        → Good g
        → Rooted g.levels xp
        → Draws Good (grow_chamber rand size xp g s)
    unfolding grow_chamber
    grow_chamber-Draws size xp g s f r =
        bind-Draws (Reported xp) Good (try_chamber rand size xp g)
          (λ st. if st.0 then pure st.1 else grow_passage rand xp st.1) s
          (try_chamber-Draws size xp g s f r)
          (λ st s' q. elim (Bool-cases st.0) [
            | inl e ↦ rw e q.0
            | inr e ↦ rw e (grow_passage-Draws rand max_levels entrance xp st.1 s' q.0 (q.1 e))
          ])

    vault_at-Draws :
        (xp : ExpansionPoint) (g : Generator) (l : Level) (found : Option Rect) (s : rand.Source)
        → Good g
        → get_elem? g.levels xp.level ≡ some l
        → walkable l xp.at ≡ true
        → Placed l xp found
        → Draws (λ st. Good st.1) (vault_at rand xp g l found s)
    unfolding vault_at
    vault_at-Draws xp g l none s f h w p = f
    vault_at-Draws xp g l (some r) s f h w (front, fr) =
        bind-Draws (Decorated chested) (λ st. Good st.1) (vault_features rand r chested)
          (λ l'. pure (true, with_level xp.level l' g)) s
          (vault_features-Draws rand r chested s proper.wide proper.tall)
          (λ l' s' dec.
            (room-Housed xp g l l' secret_door r f h w secret_door_walkable front fr (
              Decorated-trans (with_room l (ahead xp.at xp.dir) secret_door r) chested l'
                (Decorated-add_feature (with_room l (ahead xp.at xp.dir) secret_door r) (center r)
                  chest)
                dec)).0)
      where
        chested : Level
        chested = add_feature (center r) chest (with_room l (ahead xp.at xp.dir) secret_door r)

        proper : Proper r
        proper = inside-Proper r (ahead (ahead xp.at xp.dir) xp.dir) front.in_room

    pub grow_secret_room-Draws :
        (xp : ExpansionPoint) (g : Generator) (s : rand.Source)
        → Good g
        → Rooted g.levels xp
        → Draws (λ st. Good st.1) (grow_secret_room rand xp g s)
    unfolding grow_secret_room vault_on
    grow_secret_room-Draws xp g s f (l, h, w) =
        draw-then {B = Bool × Generator} rand 3 (λ st. Good st.1)
          (λ a. draw rand 3 >>= λ b. on_level xp.level g (vault_on rand xp g a b)) s (omega arith)
          (λ a s' lt.
            draw-then {B = Bool × Generator} rand 3 (λ st. Good st.1)
              (λ b. on_level xp.level g (vault_on rand xp g a b)) s' (omega arith)
              (λ b s'' lt'.
                on_level-Draws {A = Bool × Generator} (λ st. Good st.1) xp.level g l
                  (vault_on rand xp g a b) s'' h
                  (bind-Draws {B = Bool × Generator} (Placed l xp) (λ st. Good st.1)
                    (placeable_rect rand l xp (2 + a) (2 + b)) (vault_at rand xp g l) s''
                    (placeable_rect-Draws l xp (2 + a) (2 + b) s'' (omega arith) (omega arith))
                    (λ found t q. vault_at-Draws xp g l found t f h w q))))
