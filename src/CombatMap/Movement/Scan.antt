-- ===== src/CombatMap/Movement/Scan.antt =====
-- What the inner loop of `ValidateMove` does to `dist` and `queue`.
use layforge.Prelude.{
  ℕ, ◌+◌, ◌≤◌, ◌≡◌, refl, sym, subst, ◌≢◌, ◌⊎◌, inl, inr, true, List, [], ◌∷◌, ◌++◌, arith, ℤ,
  Position, ◌∈◌, mem-append, length, length-append, none, some, lookup, position_eq, lookup-insert,
  pos_eq_iff, Bool-cases, Option-cases,
}
use mathlib.Core.List.{append-nil, append_assoc}
use layforge.CombatMap.Grid.{Grid, is_open, is_open-in_bounds}
use layforge.CombatMap.Movement.{Search, offer, scan, neighbor_offsets, offset_by}
use layforge.CombatMap.Movement.Walk.{
  Adjacent, offset-Adjacent, positions, mem-positions, unseen, unseen-insert,
}

module _ (g : Grid) (cur : Position) (cur_dist : ℕ) where
  abbrev all_positions : List Position
  all_positions = positions g.width g.height

  -- From `s` to `t` the neighbours `new` of `cur` got a distance and joined the queue.
  pub record Grows (s t : Search) (new : List Position) : Type 0 where
    pub joined : t.queue ≡ s.queue ++ new
    pub kept : (p : Position) (n : ℕ) → lookup p s.dist ≡ some n → lookup p t.dist ≡ some n
    pub fresh : (p : Position) → p ∈ new → lookup p t.dist ≡ some (cur_dist + 1)
    pub origin :
        (p : Position) (n : ℕ)
        → lookup p t.dist ≡ some n
        → (lookup p s.dist ≡ some n)
          ⊎ ((n ≡ cur_dist + 1) × (p ∈ new) × Adjacent cur p × (is_open g p ≡ true))
    pub work :
        unseen t.dist (positions g.width g.height) + length t.queue
        ≤ unseen s.dist (positions g.width g.height) + length s.queue

  Grows-refl : (s : Search) → Grows s s []
  Grows-refl s = record {
    joined = sym (append-nil s.queue);
    kept = λ p n e. e;
    fresh = λ p m. absurd m;
    origin = λ p n e. inl e;
    work = omega arith;
  }

  Grows-trans :
      (s t u : Search) (xs ys : List Position) → Grows s t xs → Grows t u ys → Grows s u (xs ++ ys)
  Grows-trans s t u xs ys a b = record {
    joined = ground (arith, a.joined, b.joined, append_assoc s.queue xs ys);
    kept = λ p n e. b.kept p n (a.kept p n e);
    fresh =
        λ p m. ground (arith, mem-append p xs ys, b.fresh p, b.kept p (cur_dist + 1), a.fresh p);
    origin = λ p n e. ground (arith, b.origin p n e, a.origin p n, mem-append p xs ys);
    work = omega (arith, a.work, b.work);
  }

  offer-Grows :
      (s : Search) (next : Position)
      → Adjacent cur next
      → (new : List Position) × Grows s (offer g cur_dist next s) new
        × (is_open g next ≡ true → lookup next (offer g cur_dist next s).dist ≢ none)
  unfolding offer
  offer-Grows s next adj = elim (Bool-cases (is_open g next)) [
    | inr shut ↦ ([], rw (shut, offer) (Grows-refl s), λ o. cc)
    | inl opened ↦ elim (Option-cases (lookup next s.dist)) [
      | inr (n, seen) ↦
          ([], rw (opened, seen, offer) (Grows-refl s), λ _. rw (opened, seen, offer) (λ e. cc))
      | inl unseen_yet ↦ (
        next ∷ [],
        rw (opened, unseen_yet, offer)
            (record {
              joined = refl;
              kept = λ p n e.
                  ground (arith, lookup-insert next p (cur_dist + 1) s.dist, pos_eq_iff next p);
              fresh = λ p m.
                  ground (arith, lookup-insert next p (cur_dist + 1) s.dist, pos_eq_iff next p);
              origin = λ p n e.
                  ground (arith, lookup-insert next p (cur_dist + 1) s.dist, pos_eq_iff next p);
              work = omega (
                arith,
                unseen-insert s.dist next (cur_dist + 1) all_positions unseen_yet
                    (mem-positions g next (is_open-in_bounds g next opened)),
                length-append s.queue (next ∷ []),
              );
            }),
        λ _ e. ground (arith, lookup-insert next next (cur_dist + 1) s.dist, pos_eq_iff next next),
      )
    ]
  ]

  abbrev pub Seen : ℤ × ℤ → Search → Type 0
  Seen d t = is_open g (offset_by cur d) ≡ true → lookup (offset_by cur d) t.dist ≢ none

  -- `t` has a distance for each open neighbour that `ds` lists.
  abbrev pub Covers : List (ℤ × ℤ) → Search → Type 0
  Covers ds t = (d : ℤ × ℤ) → d ∈ ds → Seen d t

  pub scan-Grows :
      (ds : List (ℤ × ℤ)) (s : Search)
      → ((d : ℤ × ℤ) → d ∈ ds → d ∈ neighbor_offsets)
      → (new : List Position) × Grows s (scan g cur cur_dist ds s) new
        × Covers ds (scan g cur cur_dist ds s)
  unfolding scan
  scan-Grows [] s known = ([], Grows-refl s, λ d m o. absurd m)
  scan-Grows (d ∷ ds) s known =
      let (xs, first, hit) =
        offer-Grows s (offset_by cur d) (offset-Adjacent cur d (known d (inl refl))) in
      let (ys, rest, others) =
        scan-Grows ds (offer g cur_dist (offset_by cur d) s) (λ a m. known a (inr m)) in
      (
        xs ++ ys,
        Grows-trans _ _ _ xs ys first rest,
        λ a m o. elim m [
          | inl e ↦
              subst (λ b. Seen b (scan g cur cur_dist ds (offer g cur_dist (offset_by cur d) s)))
                (sym e) (λ o'. still (offset_by cur d) rest (hit o')) o
          | inr m' ↦ others a m' o
        ],
      )
    where
      still :
          {s' t' : Search} {zs : List Position} (p : Position)
          → Grows s' t' zs
          → lookup p s'.dist ≢ none
          → lookup p t'.dist ≢ none
      still {s'} {t'} p grown there gone = elim (Option-cases (lookup p s'.dist)) [
        | inl e ↦ there e
        | inr (n, e) ↦ ground (arith, grown.kept p n e)
      ]
