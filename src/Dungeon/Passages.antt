-- ===== src/Dungeon/Passages.antt =====
-- master/internal/dungeon/generator.go: growing a passage keeps the generator sound.
use layforge.Prelude.{
  ℕ, ◌+◌, ◌*◌, ◌≡◌, refl, inl, inr, Bool, true, false, some, List, Bool-cases, arith, if◌then◌else◌,
  ltb, ◌==◌, get_elem?, Position, Rand, Draws, draw-then, bind-Draws, if-Draws, Draws-weaken, pure,
  ◌>>=◌,
}
use layforge.Region.{Linked, Linked-end}
use layforge.Dungeon.Level.{Level, walkable}
use layforge.Dungeon.Shape.{Direction, left, right, carve_corridor}
use layforge.Dungeon.Generator.{ExpansionPoint, Generator, on_level, with_level, enqueue}
use layforge.Dungeon.Generator.Growth.{
  side, branch, branch_by, passage_on, passage_length, grow_passage,
}
use layforge.Dungeon.Extends.{Extends, carve_corridor-Extends}
use layforge.Dungeon.Sound.{
  Standing, Rooted, Sound, SoundWith, with_level-Sound, with_level_self, on_level-Draws,
  enqueue-Draws,
}

module _ (rand : Rand) (max_levels : ℕ) (entrance : Position) where
  abbrev Good : Generator → Type 0
  Good = Sound max_levels entrance

  abbrev Kept : List Level → Generator → Type 0
  Kept = SoundWith max_levels entrance

  side-Draws : (d : Direction) (s : rand.Source) → Draws (λ t. Unit) (side rand d s)
  unfolding side
  side-Draws d s =
      draw-then {B = Direction} rand 2 (λ t. Unit) (λ k. pure (if k == 0 then right d else left d))
        s (omega arith) (λ k s' lt. tt)

  sideways-Draws :
      (ls : List Level) (i : ℕ) (p : Position) (d : Direction) (g : Generator) (s : rand.Source)
      → Kept ls g
      → Standing ls i p
      → Draws (Kept ls) ((side rand d >>= λ t. enqueue i p t g) s)
  sideways-Draws ls i p d g s f r =
      bind-Draws (λ t. Unit) (Kept ls) (side rand d) (λ t. enqueue i p t g) s (side-Draws d s)
        (λ t s'' u. enqueue-Draws max_levels entrance ls i p t g s'' f r)

  branch_by-Draws :
      (k : ℕ) (ls : List Level) (i : ℕ) (p : Position) (d : Direction) (g : Generator)
      (s : rand.Source)
      → Kept ls g
      → Standing ls i p
      → Draws (Kept ls) (branch_by rand k i p d g s)
  unfolding branch_by
  branch_by-Draws k ls i p d g s f r = elim (Bool-cases (ltb k 60)) [
    | inl a ↦ rw a (enqueue-Draws max_levels entrance ls i p d g s f r)
    | inr a ↦ elim (Bool-cases (ltb k 80)) [
      | inl b ↦ rw (a, b) (sideways-Draws ls i p d g s f r)
      | inr b ↦ elim (Bool-cases (ltb k 92)) [
        | inl c ↦
            rw (a, b, c)
              (bind-Draws (Kept ls) (Kept ls) (enqueue i p d g)
                (λ g'. side rand d >>= λ t. enqueue i p t g') s
                (enqueue-Draws max_levels entrance ls i p d g s f r)
                (λ g' s' f'. sideways-Draws ls i p d g' s' f' r))
        | inr c ↦
            rw (a, b, c)
              (bind-Draws (Kept ls) (Kept ls) (enqueue i p (left d) g)
                (λ g'. enqueue i p (right d) g') s
                (enqueue-Draws max_levels entrance ls i p (left d) g s f r)
                (λ g' s' f'. enqueue-Draws max_levels entrance ls i p (right d) g' s' f' r))
      ]
    ]
  ]

  branch-Draws :
      (ls : List Level) (i : ℕ) (p : Position) (d : Direction) (g : Generator) (s : rand.Source)
      → Kept ls g
      → Standing ls i p
      → Draws (Kept ls) (branch rand i p d g s)
  unfolding branch
  branch-Draws ls i p d g s f r =
      draw-then rand 100 (Kept ls) (λ k. branch_by rand k i p d g) s (omega arith)
        (λ k s' lt. branch_by-Draws k ls i p d g s' f r)

  pub passage_on-Draws :
      (n : ℕ) (xp : ExpansionPoint) (g : Generator) (s : rand.Source)
      → Good g
      → (l : Level) → get_elem? g.levels xp.level ≡ some l
      → walkable l xp.at ≡ true
      → Draws Good (passage_on rand n xp g l s)
  unfolding passage_on
  passage_on-Draws n xp g s f l h w =
      if-Draws moved (branch rand xp.level e xp.dir g') (pure g') s Good
        (Draws-weaken (Kept g'.levels) Good _ (λ a q. q.0)
          (branch-Draws g'.levels xp.level e xp.dir g' s (sound, refl) standing))
        sound
    where
      e : Position
      e = (carve_corridor n xp.at xp.dir false l).0

      moved : Bool
      moved = (carve_corridor n xp.at xp.dir false l).1

      l' : Level
      l' = (carve_corridor n xp.at xp.dir false l).2

      g' : Generator
      g' = with_level xp.level l' g

      grown : Extends xp.at l l' × Linked (walkable l') xp.at e
      grown = carve_corridor-Extends n xp.at xp.dir false l (f.joined xp.level l h).sized w

      sound : Good g'
      sound = with_level-Sound max_levels entrance xp.level xp.at l l' g f h w grown.0

      standing : Standing g'.levels xp.level e
      standing = (l', with_level_self xp.level l l' g h, Linked-end grown.1)

  -- Growing a passage from an expansion point that stands on a cell to walk on never panics and keeps
  -- the invariant: on each level any two cells to walk on are linked; every expansion point, every
  -- stair and the entrance stand on such a cell; stairs are in matching pairs; every level but the
  -- first has stairs up; and there are not more levels than allowed.
  pub grow_passage-Draws :
      (xp : ExpansionPoint) (g : Generator) (s : rand.Source)
      → Good g
      → Rooted g.levels xp
      → Draws Good (grow_passage rand xp g s)
  unfolding grow_passage passage_length
  grow_passage-Draws xp g s f (l, h, w) =
      draw-then rand 5 Good (λ k. on_level xp.level g (passage_on rand ((1 + k) * 6) xp g)) s
        (omega arith)
        (λ k s' lt.
          on_level-Draws Good xp.level g l (passage_on rand ((1 + k) * 6) xp g) s' h
            (passage_on-Draws ((1 + k) * 6) xp g s' f l h w))
