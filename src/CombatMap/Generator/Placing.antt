-- ===== src/CombatMap/Generator/Placing.antt =====
-- Placing one room and its corridor keeps the generator's invariant.
use layforge.Prelude.{
  ℕ, ◌≡◌, subst, ◌∙◌, inl, inr, Bool, true, false, List, [], ◌∷◌, arith, Position, All,
}
use layforge.Region.{cell, Linked, Linked-trans, Linked-mono}
use layforge.CombatMap.Grid.{Grid, grid_in_bounds, is_open}
use layforge.CombatMap.Generator.{Room, center, carve_room, carve_corridor_by, any_overlaps, Plan}
use layforge.CombatMap.Generator.Carve.{
  Carved, InRoom, InCorridor, carve_room-Carved, carve_corridor_by-Carved,
}
use layforge.CombatMap.Generator.Rooms.{
  Interior, Fits, Hub, Plain, PlanInv, corridor-Linked, room-Linked,
}

-- An opened cell stays open, and every cell stays plain floor or a wall.
Carved-wider :
    {g t : Grid} {area : ℕ → ℕ → Type 0}
    → Carved g t area
    → (q : Position) → is_open g q ≡ true
    → is_open t q ≡ true
unfolding is_open
Carved-wider c q o = ground (arith, c.cells q)

carved-Plain : {g t : Grid} {area : ℕ → ℕ → Type 0} → Carved g t area → Plain g → Plain t
unfolding grid_in_bounds
carved-Plain c before p i = elim (c.cells p) [
  | inr floor ↦ inl floor
  | inl same ↦ ground (arith, before p, c.width, c.height)
]

module _ {w h : ℕ} where
  -- A carving step inside the border keeps all of the invariant but the hub.
  carved-Interior :
      {g t : Grid} {area : ℕ → ℕ → Type 0}
      → Carved g t area
      → ((a b : ℕ) → area a b → Interior w h a b)
      → ((a b : ℕ) → is_open g (cell a b) ≡ true → Interior w h a b)
      → (a b : ℕ) → is_open t (cell a b) ≡ true
      → Interior w h a b
  carved-Interior c inside before a b o = elim ((c.opened a b).0 o) [
    | inl old ↦ before a b old
    | inr new ↦ inside a b new
  ]

  corridor_inside :
      (first : Bool) (from to : Room) (a b : ℕ)
      → Fits w h from
      → Fits w h to
      → InCorridor first (center from).0 (center from).1 (center to).0 (center to).1 a b
      → Interior w h a b
  corridor_inside true from to a b f t m = ground arith
  corridor_inside false from to a b f t m = ground arith

  module _ (p : Plan) (v : PlanInv w h p) (r : Room) (f : Fits w h r)
      (free : any_overlaps r p.placed ≡ false) where
    room_step : Carved p.grid (carve_room p.grid r) (InRoom r)
    room_step =
        carve_room-Carved p.grid r v.sized (omega (arith, v.width)) (omega (arith, v.height))

    -- The first room.
    pub PlanInv-first :
        p.placed ≡ [] → PlanInv w h (record { grid = carve_room p.grid r; placed = r ∷ p.placed })
    PlanInv-first e = record {
      sized = room_step.sized;
      width = room_step.width ∙ v.width;
      height = room_step.height ∙ v.height;
      interior = carved-Interior room_step (λ a b m. omega arith) v.interior;
      fits = (f, v.fits);
      apart = (free, v.apart);
      hub = λ a b o. elim ((room_step.opened a b).0 o) [
        | inl old ↦ absurd (subst (Hub p.grid) e v.hub a b old)
        | inr m ↦
            room-Linked _ r a b (omega arith) (omega arith)
              (λ i j k. (room_step.opened i j).1 (inr k)) m
      ];
      plain = carved-Plain room_step v.plain;
    }

    -- A later room, with its corridor from the room before it.
    module _ (previous : Room) (rooms : List Room) (e : p.placed ≡ previous ∷ rooms)
        (first : Bool) where
      abbrev joined : Grid
      joined = carve_corridor_by first (carve_room p.grid r) previous r

      Fits-previous : Fits w h previous
      Fits-previous = (subst (All (Fits w h)) e v.fits).0

      corridor_step :
          Carved
            (carve_room p.grid r)
            joined
            (InCorridor first (center previous).0 (center previous).1 (center r).0 (center r).1)
      corridor_step =
          let fp = Fits-previous in
          carve_corridor_by-Carved first (carve_room p.grid r) previous r room_step.sized
            (omega (arith, room_step.width, v.width)) (omega (arith, room_step.height, v.height))
            (omega (arith, room_step.width, v.width)) (omega (arith, room_step.height, v.height))

      corridor_open :
          (i j : ℕ)
          → InCorridor first (center previous).0 (center previous).1 (center r).0 (center r).1 i j
          → is_open joined (cell i j) ≡ true
      corridor_open i j m = (corridor_step.opened i j).1 (inr m)

      room_open : (i j : ℕ) → InRoom r i j → is_open joined (cell i j) ≡ true
      room_open i j m = (corridor_step.opened i j).1 (inl ((room_step.opened i j).1 (inr m)))

      ends-Linked :
          Linked
            (is_open joined)
            (cell (center r).0 (center r).1)
            (cell (center previous).0 (center previous).1)
      ends-Linked =
          corridor-Linked (is_open joined) first (center previous).0 (center previous).1
            (center r).0 (center r).1 (center previous).0 (center previous).1 corridor_open
            (starts first)
        where
          starts :
              (k : Bool)
              → InCorridor k
                  (center previous).0
                  (center previous).1
                  (center r).0
                  (center r).1
                  (center previous).0
                  (center previous).1
          starts true = ground arith
          starts false = ground arith

      pub PlanInv-later : PlanInv w h (record { grid = joined; placed = r ∷ p.placed })
      PlanInv-later = record {
        sized = corridor_step.sized;
        width = corridor_step.width ∙ room_step.width ∙ v.width;
        height = corridor_step.height ∙ room_step.height ∙ v.height;
        interior =
            carved-Interior corridor_step
              (λ a b. corridor_inside first previous r a b Fits-previous f)
              (carved-Interior room_step (λ a b m. omega arith) v.interior);
        fits = (f, v.fits);
        apart = (free, v.apart);
        hub = λ a b o. elim ((corridor_step.opened a b).0 o) [
          | inr m ↦
              corridor-Linked _ first (center previous).0 (center previous).1 (center r).0
                (center r).1 a b corridor_open m
          | inl was ↦ elim ((room_step.opened a b).0 was) [
            | inr m ↦ room-Linked _ r a b (omega arith) (omega arith) room_open m
            | inl old ↦ Linked-trans ends-Linked (kept a b old)
          ]
        ];
        plain = carved-Plain corridor_step (carved-Plain room_step v.plain);
      }
        where
          kept :
              (a b : ℕ)
              → is_open p.grid (cell a b) ≡ true
              → Linked (is_open joined) (cell (center previous).0 (center previous).1) (cell a b)
          kept a b old = Linked-mono wider (subst (Hub p.grid) e v.hub a b old)
            where
              wider : (q : Position) → is_open p.grid q ≡ true → is_open joined q ≡ true
              wider q o = Carved-wider corridor_step q (Carved-wider room_step q o)
