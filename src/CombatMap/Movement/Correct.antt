-- ===== src/CombatMap/Movement/Correct.antt =====
-- `ValidateMove` decides whether a move is within reach, at the least cost.
use layforge.Prelude.{
  ℕ, zero, suc, ◌+◌, ◌*◌, ◌/◌, ◌≤◌, ◌≡◌, refl, sym, ap, subst, inl, inr, true, false, List, [], ◌∷◌,
  arith, ℤ, pos_part, Position, length, leb, leb→le, none, some, lookup, insert, position_eq,
  pos_eq, pos_eq_iff, Bool-cases,
}
use layforge.CombatMap.Grid.{Grid, grid_in_bounds, is_open}
use layforge.CombatMap.Movement.{
  Search, moves, rejected, dist_of, search_loop, search, validate_move, feet_per_cell,
}
use layforge.CombatMap.Movement.Walk.{Walk, here, step, positions, unseen-le, length-positions}
use layforge.CombatMap.Movement.Rounds.{
  Inv, Inv-shift, Decides, least, none_near, reached, expand-Rounded, work,
}

module _ (g : Grid) (start target : Position) (max_steps : ℕ) where
  abbrev Ends : ℕ → Search → Type 0
  Ends fuel s = Decides g start target max_steps (search_loop g target max_steps fuel s)

  empty_none :
      {s : Search} {d : ℕ}
      → Inv g start target max_steps s d [] []
      → (k : ℕ) → k ≤ max_steps
      → ¬ Walk g start k target
  empty_none v k h w = elim (reached g start target max_steps v w h) [
    | inr ((p, m), lt) ↦ absurd m
    | inl (n, e, le) ↦ elim (v.finished target n e) [
      | inl m ↦ absurd m
      | inr (other, _, _) ↦ other refl
    ]
  ]

  found_least :
      {s : Search} {d : ℕ} {rest later : List Position}
      → Inv g start target max_steps s d (target ∷ rest) later
      → Decides g start target max_steps (moves d)
  found_least {s} {d} v =
      let at_target = v.at_now target (inl refl) in
      let (w, le, _) = v.sound target d at_target in
      least d w le λ k walk. elim (Bool-cases (leb k max_steps)) [
        | inr far ↦ ground arith
        | inl near ↦ elim (reached g start target max_steps v walk (leb→le k max_steps near)) [
          | inr (_, lt) ↦ omega arith
          | inl (m, e, le') ↦ ground arith
        ]
      ]

  dist_of_at : (p : Position) (s : Search) (n : ℕ) → lookup p s.dist ≡ some n → dist_of g p s ≡ n
  unfolding dist_of
  dist_of_at p s n e = rw (e, dist_of)

  round_Ends :
      (fuel : ℕ)
      → ((s : Search) (d : ℕ) (now later : List Position)
          → Inv g start target max_steps s d now later
          → work g start target max_steps s ≤ fuel
          → Ends fuel s)
      → (s : Search) (d : ℕ) (cur : Position) (rest later : List Position)
      → Inv g start target max_steps s d (cur ∷ rest) later
      → work g start target max_steps s ≤ suc fuel
      → Ends (suc fuel) s
  unfolding search_loop
  round_Ends fuel next s d cur rest later v enough = elim (Bool-cases (pos_eq cur target)) [
    | inl e ↦
        let same = (pos_eq_iff cur target).0 e in
        rw (v.split, search_loop, e)
          (subst (λ n. Decides g start target max_steps (moves n))
            (sym (dist_of_at cur s d (v.at_now cur (inl refl))))
            (found_least (subst (λ c. Inv g start target max_steps s d (c ∷ rest) later) same v)))
    | inr e ↦
        let (later', v', less) =
          expand-Rounded g start target max_steps v
            (λ same. ground (arith, pos_eq_iff cur target)) in
        rw (v.split, search_loop, e) (next _ d rest later' v' (omega arith))
  ]

  loop_Ends :
      (fuel : ℕ) (s : Search) (d : ℕ) (now later : List Position)
      → Inv g start target max_steps s d now later
      → work g start target max_steps s ≤ fuel
      → Ends fuel s
  unfolding search_loop
  loop_Ends zero s d [] [] v enough = rw (v.split, search_loop) (none_near (empty_none v))
  loop_Ends zero s d [] (p ∷ later) v enough = absurd (omega (arith, ap length v.split))
  loop_Ends zero s d (p ∷ now) later v enough = absurd (omega (arith, ap length v.split))
  loop_Ends (suc fuel) s d [] [] v enough = rw (v.split, search_loop) (none_near (empty_none v))
  loop_Ends (suc fuel) s d [] (cur ∷ rest) v enough =
      round_Ends fuel (loop_Ends fuel) s (d + 1) cur rest [] (Inv-shift g start target max_steps v)
        enough
  loop_Ends (suc fuel) s d (cur ∷ rest) later v enough =
      round_Ends fuel (loop_Ends fuel) s d cur rest later v enough

  only_start :
      (p : Position) (n : ℕ) → lookup p (insert start 0 []) ≡ some n → (zero ≡ n) × (start ≡ p)
  unfolding insert lookup
  only_start p n e = ground (arith, pos_eq_iff start p)

  Inv-init :
      Inv g start target max_steps
        (record { dist = insert start 0 []; queue = start ∷ [] })
        0
        (start ∷ [])
        []
  unfolding insert lookup
  Inv-init = record {
    split = refl;
    at_now = λ p m. ground (arith, pos_eq_iff start p);
    at_later = λ p m. absurd m;
    begun = ground (arith, pos_eq_iff start start);
    sound = λ p n e.
        let (n_zero, at_start) = only_start p n e in
        (
          subst (λ q. Walk g start n q) at_start (subst (λ k. Walk g start k start) n_zero here),
          omega arith,
          omega arith,
        );
    finished = λ p n e. inl (ground (arith, pos_eq_iff start p));
  }

  pub search-Decides : Decides g start target max_steps (search g start target max_steps)
  unfolding search
  search-Decides = loop_Ends (g.width * g.height + 1) _ 0 (start ∷ []) [] Inv-init (
      omega (
        arith,
        unseen-le (insert start 0 []) (positions g.width g.height),
        length-positions g.width g.height,
      ))

Walk-zero : {g : Grid} {start p : Position} {n : ℕ} → Walk g start n p → n ≡ 0 → p ≡ start
Walk-zero here e = refl
Walk-zero (step w adj o) e = absurd (omega arith)

-- For a start on the grid and an open target, the search ends, and its answer is decided by the
-- walks of king's steps over open cells: it accepts the move exactly if a walk of at most
-- speed / 5 steps leads to the target, and the cost is then the least number of steps of any
-- walk there, a step costing one cell also into difficult terrain. A start off the grid and a target that is closed or off the grid are rejected,
-- and so is every move on a nil grid.
pub validate_move-Decides :
    (g : Grid) (start target : Position) (speed_feet : ℤ)
    → (grid_in_bounds g start ≡ true
        → is_open g target ≡ true
        → Decides g start target
            (pos_part speed_feet / feet_per_cell)
            (validate_move (some g) start target speed_feet))
      × (grid_in_bounds g start ≡ false → validate_move (some g) start target speed_feet ≡ rejected)
      × (is_open g target ≡ false → validate_move (some g) start target speed_feet ≡ rejected)
      × (validate_move none start target speed_feet ≡ rejected)
unfolding validate_move
validate_move-Decides g start target speed_feet = (
  λ i o. elim (Bool-cases (pos_eq start target)) [
    | inl same ↦
        rw (i, o, same)
          (least 0 (subst (λ q. Walk g start 0 q) ((pos_eq_iff start target).0 same) here)
            (omega arith) (λ k w. omega arith))
    | inr other ↦ elim (Bool-cases (leb (pos_part speed_feet / feet_per_cell) 0)) [
      | inl still ↦
          rw (i, o, other, still)
            (none_near
              λ k le w. ground (arith, Walk-zero w (ground arith), pos_eq_iff start target))
      | inr steps ↦
          rw (i, o, other, steps)
            (search-Decides g start target (pos_part speed_feet / feet_per_cell))
    ]
  ],
  λ out. ground arith,
  λ shut. ground arith,
  refl,
)
