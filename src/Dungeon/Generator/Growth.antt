-- ===== src/Dungeon/Generator/Growth.antt =====
-- master/internal/dungeon/generator.go: passages, stairs, and the loop that grows the dungeon.
use package.layforge.Prelude.{
  ℕ, zero, suc, ◌+◌, ◌*◌, ◌/◌, Bool, false, not, ◌&&◌, ◌||◌, Option, none, some, [], ◌∷◌, ◌++◌, ltb,
  leb, ◌==◌, if◌then◌else◌, length, pos, pos_part, Position, Rand, Draw, ◌>>=◌, pure, draw,
}
use package.layforge.Dungeon.Level.{
  stairs_up, stairs_down, up, down, Level, level_set, level_in_bounds, carvable, walkable, Dungeon,
}
use package.layforge.Dungeon.Shape.{RoomSize, Direction, left, right, ahead, carve_corridor}
use package.layforge.Dungeon.Generator.{
  Options, ExpansionPoint, Generator, frontier_soft_cap, on_level, with_level, new_level, enqueue,
  carve_landing, add_stair, malformed, budget_of,
}
use package.layforge.Dungeon.Generator.Rooms.{try_chamber, grow_secret_room}

module _ (rand : Rand) where
  unfoldable pub passage_length : Draw rand.Source ℕ
  unfolding draw
  passage_length = do k ← draw rand 5; pure ((1 + k) * 6)

  unfoldable pub side : Direction → Draw rand.Source Direction
  unfolding draw
  side d = do k ← draw rand 2; pure (if k == 0 then right d else left d)

  -- The switch of `growPassage`: what continues from the end of a passage.
  unfoldable pub branch_by : ℕ → ℕ → Position → Direction → Generator → Draw rand.Source Generator
  unfolding side enqueue
  branch_by r i e d g =
      if ltb r 60
      then enqueue i e d g
      else if ltb r 80
      then (do t ← side d; enqueue i e t g)
      else if ltb r 92
      then (do g' ← enqueue i e d g; t ← side d; enqueue i e t g')
      else (do g' ← enqueue i e (left d) g; enqueue i e (right d) g')

  unfoldable pub branch : ℕ → Position → Direction → Generator → Draw rand.Source Generator
  unfolding branch_by draw
  branch i e d g = do r ← draw rand 100; branch_by r i e d g

  -- `growPassage` for a length, on the level of the expansion point.
  unfoldable pub passage_on : ℕ → ExpansionPoint → Generator → Level → Draw rand.Source Generator
  unfolding carve_corridor branch with_level
  passage_on n xp g l =
      let (e, moved, l') = carve_corridor n xp.at xp.dir false l in
      if moved
      then branch xp.level e xp.dir (with_level xp.level l' g)
      else pure (with_level xp.level l' g)

  unfoldable pub grow_passage : ExpansionPoint → Generator → Draw rand.Source Generator
  unfolding passage_length passage_on on_level
  grow_passage xp g = do n ← passage_length; on_level xp.level g (passage_on n xp g)

  unfoldable pub grow_chamber : RoomSize → ExpansionPoint → Generator → Draw rand.Source Generator
  unfolding try_chamber grow_passage
  grow_chamber size xp g = do
    (placed, g') ← try_chamber rand size xp g
    if placed then pure g' else grow_passage xp g'

  module _ (width height : ℕ) (max_levels : ℕ) (size : RoomSize) where
    -- The end of `growStairs`, once the new level `child_idx` has its landing at `c`.
    unfoldable pub join_stairs :
        ExpansionPoint → Position → Level → ℕ → Position × Generator → Level → Generator
    unfolding add_stair with_level
    join_stairs xp s l child_idx (c, g) child =
        with_level child_idx
          (add_stair (record { at = c; dir = up; to_level = xp.level })
            (level_set child c stairs_up))
          (with_level xp.level (add_stair (record { at = s; dir = down; to_level = child_idx }) l)
            g)

    -- The generator with the stairs down and the new level.
    unfoldable pub opened : ExpansionPoint → Level → ℕ → Generator → Generator
    unfolding with_level new_level
    opened xp l depth g =
        let g' = with_level xp.level l g in
        record g' { levels = g'.levels ++ new_level width height depth ∷ [] }

    -- The new level below, with its landing and its stairs.
    unfoldable pub descend :
        ExpansionPoint → Position → Level → Generator → Draw rand.Source Generator
    unfolding carve_landing opened join_stairs on_level
    descend xp s l g =
        let child_idx = length g.levels in
        let l' = level_set l s stairs_down in
        (do
          landed ←
              carve_landing child_idx (record { x = pos (width / 2); y = pos (height / 2) })
                (opened xp l' (l.depth + 1) g)
          on_level child_idx landed.1 λ child. pure (join_stairs xp s l' child_idx landed child))

    unfoldable pub stairs_on : ExpansionPoint → Generator → Level → Draw rand.Source Generator
    unfolding descend ahead
    stairs_on xp g l =
        if not (carvable l (ahead xp.at xp.dir))
        then pure g
        else descend xp (ahead xp.at xp.dir) l g

    unfoldable pub grow_stairs : ExpansionPoint → Generator → Draw rand.Source Generator
    unfolding stairs_on on_level
    grow_stairs xp g =
        if leb max_levels (length g.levels) then pure g else on_level xp.level g (stairs_on xp g)

    -- One dead end in four hides a vault, unless the frontier is crowded.
    unfoldable pub dead_end : Bool → ExpansionPoint → Generator → Draw rand.Source Generator
    unfolding grow_secret_room draw
    dead_end crowded xp g = if crowded then pure g else (do
      k ← draw rand 4
      if k == 0 then (do r ← grow_secret_room rand xp g; pure r.1) else pure g)

    -- The switch of `grow`.
    unfoldable pub grow_by : Bool → ℕ → ExpansionPoint → Generator → Draw rand.Source Generator
    unfolding grow_passage dead_end grow_chamber grow_stairs
    grow_by crowded roll xp g =
        if ltb roll 55 || crowded && ltb roll 95
        then grow_passage xp g
        else if ltb roll 60
        then dead_end crowded xp g
        else if ltb roll 92 && not crowded
        then grow_chamber size xp g
        else if not crowded
        then grow_stairs xp g
        else grow_passage xp g

    unfoldable pub grow_on : ExpansionPoint → Generator → Level → Draw rand.Source Generator
    unfolding grow_by ahead draw
    grow_on xp g l =
        if not (level_in_bounds l xp.at)
        then pure g
        else if walkable l (ahead xp.at xp.dir)
        then pure g
        else (do
          roll ← draw rand 100
          grow_by (leb frontier_soft_cap (length g.frontier)) roll xp g)

    unfoldable pub grow : ExpansionPoint → Generator → Draw rand.Source Generator
    unfolding grow_on on_level
    grow xp g = on_level xp.level g (grow_on xp g)

    -- The loop of `Generate`.
    unfoldable pub expand : ℕ → Generator → Draw rand.Source Generator
    unfolding grow
    expand zero g = pure g
    expand (suc budget) g = elim g.frontier [
      | [] ↦ pure g
      | xp ∷ rest ↦ (do g' ← grow xp (record g { frontier = rest }); expand budget g')
    ]

    -- `Generate` after its guard: the entrance, and the loop.
    unfoldable pub dig : ℕ → Draw rand.Source Dungeon
    unfolding expand carve_landing new_level
    dig budget = do
      landed ←
          carve_landing 0 (record { x = pos (width / 2); y = pos (height / 2) })
            (record { levels = new_level width height 0 ∷ []; frontier = [] })
      g ← expand budget landed.1
      pure (record { levels = g.levels; entrance = landed.0 })

  -- `none` is the nil dungeon.
  unfoldable pub generate : Options → Draw rand.Source (Option Dungeon)
  unfolding malformed budget_of dig
  generate opts = if malformed opts then pure none else (do
    d ←
        dig (pos_part opts.level_width) (pos_part opts.level_height) (pos_part opts.max_levels)
          opts.room_size (budget_of opts)
    pure (some d))
