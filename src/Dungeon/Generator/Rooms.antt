-- ===== src/Dungeon/Generator/Rooms.antt =====
-- master/internal/dungeon/generator.go: chambers with their exits, and vaults.
use package.layforge.Prelude.{
  ℕ, zero, suc, ◌+◌, Bool, true, false, not, ◌&&◌, ◌||◌, Option, none, some, List, [], ◌∷◌, ltb,
  leb, ◌==◌, if◌then◌else◌, ℤ, pos, pos_part, ◌+ℤ◌, ◌-ℤ◌, ltb_ℤ, Position, pos_eq, Rand, Draw,
  ◌>>=◌, pure, draw,
}
use package.layforge.Dungeon.Level.{
  TileType, floor, door, secret_door, statue, shrine, chest, Level, level_set, level_in_bounds,
  carvable, walkable,
}
use package.layforge.Dungeon.Shape.{
  RoomSize, average, cramped, huge, Direction, north, east, south, west, around, same_direction,
  ahead, ints, Rect, fill, rect_free,
}
use package.layforge.Dungeon.Generator.{
  ExpansionPoint, Generator, on_level, with_level, enqueue_on, feature_kind, add_feature, center,
}

-- The guards of an attempt: the wall cell is carvable and solid, and the cell behind it solid.
unfoldable pub exit_fits : Level → Position → Direction → Bool
unfolding ahead walkable carvable
exit_fits l o d =
    carvable l o
    && not (walkable l o)
    && level_in_bounds l (ahead o d)
    && not (walkable l (ahead o d))

module _ (rand : Rand) where
  -- `Intn` on an `int`.
  unfoldable pub intn : ℤ → Draw rand.Source ℤ
  unfolding draw
  intn n = do k ← draw rand (pos_part n); pure (pos k)

  unfoldable pub d3 : Draw rand.Source ℕ
  unfolding draw
  d3 = do k ← draw rand 3; pure (1 + k)

  unfoldable pub two_d3 : Draw rand.Source ℕ
  unfolding d3
  two_d3 = do a ← d3; b ← d3; pure (a + b)

  -- The function `roll` of `chamberDims`.
  unfoldable pub roll_side : RoomSize → Draw rand.Source ℕ
  unfolding draw d3 two_d3
  roll_side cramped = do
    r ← draw rand 100
    if ltb r 65 then d3 else if ltb r 90 then two_d3 else (do k ← d3; pure (k + 3))
  roll_side huge = do r ← draw rand 2; if r == 0 then two_d3 else (do k ← two_d3; pure (k + 3))
  roll_side average = two_d3

  unfoldable pub chamber_dims : RoomSize → Draw rand.Source (ℕ × ℕ)
  unfolding roll_side
  chamber_dims size = do w ← roll_side size; h ← roll_side size; pure (w, h)

  -- The rectangle of `placeableRect`, ahead of the door.
  unfoldable pub lay_out : Position → Direction → ℕ → ℕ → Draw rand.Source Rect
  unfolding draw
  lay_out entry east w h = do
    off ← draw rand h
    pure (record {
      min_x = entry.x +ℤ pos 1;
      max_x = entry.x +ℤ pos 1 +ℤ pos w -ℤ pos 1;
      min_y = entry.y -ℤ pos off;
      max_y = entry.y -ℤ pos off +ℤ pos h -ℤ pos 1;
    })
  lay_out entry west w h = do
    off ← draw rand h
    pure (record {
      min_x = entry.x -ℤ pos 1 -ℤ pos w +ℤ pos 1;
      max_x = entry.x -ℤ pos 1;
      min_y = entry.y -ℤ pos off;
      max_y = entry.y -ℤ pos off +ℤ pos h -ℤ pos 1;
    })
  lay_out entry south w h = do
    off ← draw rand w
    pure (record {
      min_y = entry.y +ℤ pos 1;
      max_y = entry.y +ℤ pos 1 +ℤ pos h -ℤ pos 1;
      min_x = entry.x -ℤ pos off;
      max_x = entry.x -ℤ pos off +ℤ pos w -ℤ pos 1;
    })
  lay_out entry north w h = do
    off ← draw rand w
    pure (record {
      min_y = entry.y -ℤ pos 1 -ℤ pos h +ℤ pos 1;
      max_y = entry.y -ℤ pos 1;
      min_x = entry.x -ℤ pos off;
      max_x = entry.x -ℤ pos off +ℤ pos w -ℤ pos 1;
    })

  -- `none` is the result ok=false.
  unfoldable pub placeable_rect : Level → ExpansionPoint → ℕ → ℕ → Draw rand.Source (Option Rect)
  unfolding lay_out rect_free ahead
  placeable_rect l xp w h = do
    r ← lay_out (ahead xp.at xp.dir) xp.dir w h
    pure (if rect_free r l then some r else none)

  -- One cell of the loop of `scatterFeatures`, with the number of features placed.
  unfoldable pub scatter_cell : Position → ℕ × Level → Draw rand.Source (ℕ × Level)
  unfolding draw feature_kind add_feature
  scatter_cell p (placed, l) = do
    r ← draw rand 100
    if leb 8 r
        then pure (placed, l)
        else (do k ← draw rand 4; pure (suc placed, add_feature p (feature_kind k) l))

  unfoldable pub scatter_row : List ℤ → ℤ → ℕ × Level → Draw rand.Source (ℕ × Level)
  unfolding scatter_cell
  scatter_row [] y st = pure st
  scatter_row (x ∷ xs) y st =
      if ltb st.0 3
      then (do st' ← scatter_cell (record { x = x; y = y }) st; scatter_row xs y st')
      else pure st

  unfoldable pub scatter_rows : List ℤ → List ℤ → ℕ × Level → Draw rand.Source (ℕ × Level)
  unfolding scatter_row
  scatter_rows xs [] st = pure st
  scatter_rows xs (y ∷ ys) st =
      if ltb st.0 3 then (do st' ← scatter_row xs y st; scatter_rows xs ys st') else pure st

  unfoldable pub scatter_features : Rect → Level → Draw rand.Source Level
  unfolding scatter_rows ints
  scatter_features r l =
      if ltb_ℤ (r.max_x -ℤ r.min_x) (pos 2) || ltb_ℤ (r.max_y -ℤ r.min_y) (pos 2)
      then pure l
      else (do
        st ←
            scatter_rows (ints (r.min_x +ℤ pos 1) (r.max_x -ℤ pos 1))
              (ints (r.min_y +ℤ pos 1) (r.max_y -ℤ pos 1)) (0, l)
        pure st.1)

  -- The function `try` of each wall.
  unfoldable pub try_wall : Rect → Direction → Draw rand.Source Position
  unfolding intn
  try_wall r north = do
    k ← intn (r.max_x -ℤ r.min_x +ℤ pos 1)
    pure (record { x = r.min_x +ℤ k; y = r.min_y -ℤ pos 1 })
  try_wall r south = do
    k ← intn (r.max_x -ℤ r.min_x +ℤ pos 1)
    pure (record { x = r.min_x +ℤ k; y = r.max_y +ℤ pos 1 })
  try_wall r west = do
    k ← intn (r.max_y -ℤ r.min_y +ℤ pos 1)
    pure (record { x = r.min_x -ℤ pos 1; y = r.min_y +ℤ k })
  try_wall r east = do
    k ← intn (r.max_y -ℤ r.min_y +ℤ pos 1)
    pure (record { x = r.max_x +ℤ pos 1; y = r.min_y +ℤ k })

  -- The kind of door; only a later exit can be secret.
  unfoldable pub exit_door : ℕ → Draw rand.Source TileType
  unfolding draw
  exit_door made =
      if ltb 0 made
      then (do k ← draw rand 6; pure (if k == 0 then secret_door else door))
      else pure door

  unfoldable pub punch : ℕ → Position → Direction → ℕ × Generator → Draw rand.Source (ℕ × Generator)
  unfolding exit_door on_level with_level enqueue_on
  punch i o d (made, g) = on_level i g λ l. do
    t ← exit_door made
    pure (suc made, enqueue_on (level_set l o t) i o d (with_level i (level_set l o t) g))

  -- The attempts at one wall.
  unfoldable pub exit_attempts :
      ℕ → ℕ → Rect → Direction → ℕ × Generator → Draw rand.Source (ℕ × Generator)
  unfolding try_wall exit_fits punch on_level
  exit_attempts zero i r d st = pure st
  exit_attempts (suc n) i r d st = do
    o ← try_wall r d
    let rest = exit_attempts n i r d st in
        on_level i st.1 λ l. if exit_fits l o d then punch i o d st else rest

  -- The loop over the shuffled walls.
  unfoldable pub exit_walls :
      ℕ → ℕ → Rect → Direction → List Direction → ℕ × Generator → Draw rand.Source (ℕ × Generator)
  unfolding exit_attempts same_direction
  exit_walls want i r entry [] st = pure st
  exit_walls want i r entry (d ∷ ds) st =
      if leb want st.0
      then pure st
      else if same_direction d entry
      then exit_walls want i r entry ds st
      else (do st' ← exit_attempts 6 i r d st; exit_walls want i r entry ds st')

  -- `chamberExits`, once the walls are shuffled.
  unfoldable pub exits_in :
      ℕ → Rect → Direction → Generator → List Direction → Draw rand.Source Generator
  unfolding exit_walls around draw
  exits_in i r entry_dir g walls = do
    k ← draw rand 3
    st ← exit_walls (1 + k) i r (around entry_dir) walls (0, g)
    pure st.1

  unfoldable pub chamber_exits : ℕ → Rect → Direction → Generator → Draw rand.Source Generator
  unfolding exits_in
  chamber_exits i r entry_dir g = do
    walls ← (λ s. some (rand.shuffle (north ∷ south ∷ west ∷ east ∷ []) s))
    exits_in i r entry_dir g walls

  -- `tryChamber`, once the rectangle is found or not.
  unfoldable pub chamber_at :
      ExpansionPoint → Generator → Level → Option Rect → Draw rand.Source (Bool × Generator)
  unfolding fill scatter_features chamber_exits with_level ahead
  chamber_at xp g l none = pure (false, g)
  chamber_at xp g l (some r) = do
    l' ← scatter_features r (fill r floor (level_set l (ahead xp.at xp.dir) door))
    g' ← chamber_exits xp.level r xp.dir (with_level xp.level l' g)
    pure (true, g')

  unfoldable pub chamber_on :
      ExpansionPoint → Generator → ℕ × ℕ → Level → Draw rand.Source (Bool × Generator)
  unfolding placeable_rect chamber_at
  chamber_on xp g (w, h) l = do found ← placeable_rect l xp w h; chamber_at xp g l found

  -- Whether the chamber was placed, with the generator after it.
  unfoldable pub try_chamber :
      RoomSize → ExpansionPoint → Generator → Draw rand.Source (Bool × Generator)
  unfolding chamber_dims chamber_on on_level
  try_chamber size xp g = do dims ← chamber_dims size; on_level xp.level g (chamber_on xp g dims)

  -- The second feature of a vault, if it does not fall on the chest.
  unfoldable pub feature_at : Rect → Position → Level → Draw rand.Source Level
  unfolding draw add_feature center
  feature_at r p l =
      if pos_eq p (center r)
      then pure l
      else (do coin ← draw rand 2; pure (add_feature p (if coin == 0 then statue else shrine) l))

  unfoldable pub second_feature : Rect → Level → Draw rand.Source Level
  unfolding intn feature_at
  second_feature r l = do
    kx ← intn (r.max_x -ℤ r.min_x +ℤ pos 1)
    ky ← intn (r.max_y -ℤ r.min_y +ℤ pos 1)
    feature_at r (record { x = r.min_x +ℤ kx; y = r.min_y +ℤ ky }) l

  -- The features of a vault after its chest.
  unfoldable pub vault_features : Rect → Level → Draw rand.Source Level
  unfolding second_feature draw
  vault_features r l = do coin ← draw rand 2; if coin == 0 then second_feature r l else pure l

  -- `growSecretRoom`, once the rectangle is found or not.
  unfoldable pub vault_at :
      ExpansionPoint → Generator → Level → Option Rect → Draw rand.Source (Bool × Generator)
  unfolding fill vault_features center add_feature with_level ahead
  vault_at xp g l none = pure (false, g)
  vault_at xp g l (some r) = do
    l' ←
        vault_features r (
          add_feature (center r) chest
            (fill r floor (level_set l (ahead xp.at xp.dir) secret_door)))
    pure (true, with_level xp.level l' g)

  unfoldable pub vault_on :
      ExpansionPoint → Generator → ℕ → ℕ → Level → Draw rand.Source (Bool × Generator)
  unfolding placeable_rect vault_at
  vault_on xp g w h l = do found ← placeable_rect l xp (2 + w) (2 + h); vault_at xp g l found

  unfoldable pub grow_secret_room : ExpansionPoint → Generator → Draw rand.Source (Bool × Generator)
  unfolding vault_on on_level draw
  grow_secret_room xp g = do
    w ← draw rand 3
    h ← draw rand 3
    on_level xp.level g (vault_on xp g w h)
