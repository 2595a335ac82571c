-- ===== src/CombatMap/Movement.antt =====
-- master/internal/combatmap/movement.go: the breadth-first search of `ValidateMove`.
pub mod Walk
pub mod Scan
pub mod Rounds
pub mod Correct
use package.layforge.Prelude.{
  pos_part, ℕ, zero, suc, ◌+◌, ◌-◌, ◌*◌, ◌/◌, ◌≤◌, ◌<◌, ◌≡◌, Bool, true, false, not, ◌&&◌, ◌||◌,
  Option, none, some, List, [], ◌∷◌, ◌++◌, ltb, leb, if◌then◌else◌, ℤ, pos, negsuc, ◌+ℤ◌, Position,
  pos_eq, lookup, insert, position_eq,
}
use package.layforge.CombatMap.Grid.{Grid, grid_in_bounds, is_open}

abbrev pub feet_per_cell : ℕ
feet_per_cell = 5

-- `neighborOffsets`, as pairs (dx, dy) in their order.
abbrev pub neighbor_offsets : List (ℤ × ℤ)
neighbor_offsets =
    (pos 1, pos 0)
    ∷ (negsuc 0, pos 0)
    ∷ (pos 0, pos 1)
    ∷ (pos 0, negsuc 0)
    ∷ (pos 1, pos 1)
    ∷ (pos 1, negsuc 0)
    ∷ (negsuc 0, pos 1)
    ∷ (negsuc 0, negsuc 0)
    ∷ []

pub offset_by : Position → ℤ × ℤ → Position
offset_by p (dx, dy) = record { x = p.x +ℤ dx; y = p.y +ℤ dy }

-- The local variables `dist` and `queue`.
pub record Search : Type 0 where
  pub dist : List (Position × ℕ)
  pub queue : List Position

-- The pair (ok, cellsCost); `stuck` is a loop of the model that ran out of fuel.
pub data Verdict : Type 0 where
  moves : ℕ → Verdict
  rejected stuck : Verdict

module _ (g : Grid) where
  -- The body of the inner loop, at `next`.
  pub offer : ℕ → Position → Search → Search
  offer cur_dist next s = if not (is_open g next) then s else elim (lookup next s.dist) [
    | some _ ↦ s
    | none ↦ record { dist = insert next (cur_dist + 1) s.dist; queue = s.queue ++ (next ∷ []) }
  ]

  -- The inner loop over the offsets.
  pub scan : Position → ℕ → List (ℤ × ℤ) → Search → Search
  unfolding offer offset_by
  scan cur cur_dist [] s = s
  scan cur cur_dist (d ∷ ds) s = scan cur cur_dist ds (offer cur_dist (offset_by cur d) s)

  -- `dist[cur]`, with the zero value of a missing key.
  pub dist_of : Position → Search → ℕ
  dist_of p s = elim (lookup p s.dist) [ none ↦ 0 | some n ↦ n ]

  module _ (target : Position) (max_steps : ℕ) where
    -- One round after `cur` left the queue and is not the target.
    pub expand : Position → Search → Search
    unfolding scan dist_of
    expand cur s =
        if leb max_steps (dist_of cur s) then s else scan cur (dist_of cur s) neighbor_offsets s

    -- The loop `for len(queue) > 0`.
    pub search_loop : ℕ → Search → Verdict
    unfolding expand
    search_loop zero s = elim s.queue [ [] ↦ rejected | _ ∷ _ ↦ stuck ]
    search_loop (suc fuel) s = elim s.queue [
      | [] ↦ rejected
      | cur ∷ rest ↦
          let next = search_loop fuel (expand cur (record s { queue = rest })) in
          if pos_eq cur target then moves (dist_of cur s) else next
    ]

-- The search itself. A round takes one position off the queue, and only open positions with no
-- distance yet join it, so a round for each cell and one for the start are enough.
pub search : Grid → Position → Position → ℕ → Verdict
unfolding search_loop
search g start target max_steps =
    search_loop g target max_steps (g.width * g.height + 1)
      (record { dist = insert start 0 []; queue = start ∷ [] })

-- A nil grid is `none`. Go's division rounds towards zero, so a negative speed gives no step.
unfoldable pub validate_move : Option Grid → Position → Position → ℤ → Verdict
unfolding search
validate_move none start target speed_feet = rejected
validate_move (some g) start target speed_feet =
    if not (grid_in_bounds g start) || not (is_open g target)
    then rejected
    else if pos_eq start target
    then moves 0
    else let max_steps = pos_part speed_feet / feet_per_cell in
      if leb max_steps 0 then rejected else search g start target max_steps
