-- ===== src/CombatMap/Generator/Steps.antt =====
-- Each round of the generator keeps its invariant and draws without a panic.
use layforge.Prelude.{
  ℕ, zero, suc, ◌+◌, ◌-◌, ◌≤◌, ◌≡◌, refl, inl, inr, false, ◌||◌, List, [], ◌∷◌, arith, leb, ◌==◌,
  Bool-cases, Rand, Draws, draw, draw-then, bind-Draws, pure, ◌>>=◌,
}
use layforge.CombatMap.Generator.{
  Room, carve_room, carve_corridor_by, any_overlaps, Plan, carve_corridor, connect, place,
  attempt_sized, attempt, attempts,
}
use layforge.CombatMap.Generator.Rooms.{Fits, PlanInv}
use layforge.CombatMap.Generator.Placing.{PlanInv-first, PlanInv-later}

module _ (rand : Rand) (w h min_size max_size : ℕ) where
  connect-Draws :
      (p : Plan) (r : Room) (s : rand.Source)
      → PlanInv w h p
      → Fits w h r
      → any_overlaps r p.placed ≡ false
      → (rooms : List Room) → p.placed ≡ rooms
      → Draws
          (λ g. PlanInv w h (record { grid = g; placed = r ∷ p.placed }))
          (connect rand (carve_room p.grid r) rooms r s)
  unfolding connect carve_corridor
  connect-Draws p r s v f free [] e = PlanInv-first p v r f free e
  connect-Draws p r s v f free (previous ∷ rooms) e =
      draw-then rand 2 (λ g. PlanInv w h (record { grid = g; placed = r ∷ p.placed }))
        (λ coin. pure (carve_corridor_by (coin == 0) (carve_room p.grid r) previous r)) s
        (omega arith) (λ coin s' lt. PlanInv-later p v r f free previous rooms e (coin == 0))

  place-Draws :
      (p : Plan) (r : Room) (s : rand.Source)
      → PlanInv w h p
      → Fits w h r
      → Draws (PlanInv w h) (place rand w h min_size max_size p r s)
  unfolding place
  place-Draws p r s v f = elim (Bool-cases (any_overlaps r p.placed)) [
    | inl hit ↦ rw hit v
    | inr free ↦ rw free (
        bind-Draws (λ g. PlanInv w h (record { grid = g; placed = r ∷ p.placed })) (PlanInv w h)
          (connect rand (carve_room p.grid r) p.placed r)
          (λ g. pure (record { grid = g; placed = r ∷ p.placed })) s
          (connect-Draws p r s v f free p.placed refl) (λ g s' inv. inv))
  ]

  attempt_sized-Draws :
      (p : Plan) (rm_w rm_h : ℕ) (s : rand.Source)
      → 1 ≤ rm_w
      → 1 ≤ rm_h
      → PlanInv w h p
      → Draws (PlanInv w h) (attempt_sized rand w h min_size max_size p rm_w rm_h s)
  unfolding attempt_sized
  attempt_sized-Draws p rm_w rm_h s hw hh v =
      elim (Bool-cases (leb (w - 1) rm_w || leb (h - 1) rm_h)) [
        | inl large ↦ rw large v
        | inr fitting ↦ rw fitting (
            draw-then rand (w - rm_w - 1) (PlanInv w h)
              (λ dx. draw rand (h - rm_h - 1) >>= λ dy.
                place rand w h min_size max_size p
                  (record { x = 1 + dx; y = 1 + dy; w = rm_w; h = rm_h }))
              s (ground arith)
              λ dx s1 hx.
                draw-then rand (h - rm_h - 1) (PlanInv w h)
                  (λ dy.
                    place rand w h min_size max_size p
                      (record { x = 1 + dx; y = 1 + dy; w = rm_w; h = rm_h }))
                  s1 (ground arith) λ dy s2 hy. place-Draws p _ s2 v (ground arith))
      ]

  attempt-Draws :
      (p : Plan) (s : rand.Source)
      → 1 ≤ min_size
      → min_size ≤ max_size
      → PlanInv w h p
      → Draws (PlanInv w h) (attempt rand w h min_size max_size p s)
  unfolding attempt
  attempt-Draws p s lo le v =
      let span : ℕ = max_size - min_size + 1 in
      draw-then rand span (PlanInv w h)
        (λ dw. draw rand span >>= λ dh.
          attempt_sized rand w h min_size max_size p (min_size + dw) (min_size + dh))
        s (omega arith)
        λ dw s1 hw.
          draw-then rand span (PlanInv w h)
            (λ dh. attempt_sized rand w h min_size max_size p (min_size + dw) (min_size + dh)) s1
            (omega arith) λ dh s2 hh. attempt_sized-Draws p _ _ s2 (omega arith) (omega arith) v

  pub attempts-Draws :
      (n : ℕ) (p : Plan) (s : rand.Source)
      → 1 ≤ min_size
      → min_size ≤ max_size
      → PlanInv w h p
      → Draws (PlanInv w h) (attempts rand w h min_size max_size n p s)
  unfolding attempts
  attempts-Draws zero p s lo le v = v
  attempts-Draws (suc n) p s lo le v =
      bind-Draws (PlanInv w h) (PlanInv w h) (attempt rand w h min_size max_size p)
        (attempts rand w h min_size max_size n) s (attempt-Draws p s lo le v)
        (λ p' s' v'. attempts-Draws n p' s' lo le v')
