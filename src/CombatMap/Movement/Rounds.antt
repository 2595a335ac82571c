-- ===== src/CombatMap/Movement/Rounds.antt =====
-- The loop of `ValidateMove`: its invariant, and that the rounds suffice.
use layforge.Prelude.{
  ℕ, suc, ◌+◌, ◌≤◌, ◌<◌, ◌≡◌, refl, sym, ap, subst, ◌∙◌, ◌≢◌, ◌⊎◌, inl, inr, true, List, [], ◌∷◌,
  ◌++◌, arith, Position, ◌∈◌, mem-append, length, leb, leb→le, if◌then◌else◌, none, some, lookup,
  position_eq, Bool-cases, Option-cases,
}
use mathlib.Core.List.{append-nil, append_assoc}
use layforge.CombatMap.Grid.{Grid, is_open}
use layforge.CombatMap.Movement.{
  Search, Verdict, moves, rejected, scan, neighbor_offsets, dist_of, expand,
}
use layforge.CombatMap.Movement.Walk.{
  Adjacent, Adjacent-offset, Walk, here, step, positions, unseen,
}
use layforge.CombatMap.Movement.Scan.{Grows, Covers, scan-Grows}

module _ (g : Grid) (start target : Position) (max_steps : ℕ) where
  -- The queue is `now`, at distance `d`, and then `later`, one step farther. Every position with a
  -- distance is either queued or done with: not the target, and with all its open neighbours seen.
  pub record Inv (s : Search) (d : ℕ) (now later : List Position) : Type 0 where
    pub split : s.queue ≡ now ++ later
    pub at_now : (p : Position) → p ∈ now → lookup p s.dist ≡ some d
    pub at_later : (p : Position) → p ∈ later → lookup p s.dist ≡ some (d + 1)
    pub begun : lookup start s.dist ≡ some 0
    pub sound :
        (p : Position) (n : ℕ)
        → lookup p s.dist ≡ some n
        → Walk g start n p × (n ≤ max_steps) × (n ≤ d + 1)
    pub finished :
        (p : Position) (n : ℕ)
        → lookup p s.dist ≡ some n
        → (p ∈ now ++ later)
          ⊎ ((p ≢ target)
              × (n ≤ d)
              × ((q : Position)
                  → n < max_steps
                  → Adjacent p q
                  → is_open g q ≡ true
                  → (m : ℕ) × (lookup q s.dist ≡ some m) × (m ≤ n + 1)))

  -- What the verdict says: the least number of steps, if at most `max_steps` lead to the target.
  pub data Decides : Verdict → Type 0 where
    least :
        (n : ℕ)
        → Walk g start n target
        → n ≤ max_steps
        → ((k : ℕ) → Walk g start k target → n ≤ k)
        → Decides (moves n)
    none_near : ((k : ℕ) → k ≤ max_steps → ¬ Walk g start k target) → Decides rejected

  module _ {s : Search} {d : ℕ} {now later : List Position} (v : Inv s d now later) where
    -- A walk ends at a seen position, or passes through the queue earlier.
    pub reached :
        {k : ℕ} {p : Position}
        → Walk g start k p
        → k ≤ max_steps
        → ((m : ℕ) × (lookup p s.dist ≡ some m) × (m ≤ k))
          ⊎ (((q : Position) × (q ∈ now ++ later)) × (d < k))
    reached here h = inl (0, v.begun, omega arith)
    reached (step {n} {p} {q} w adj o) h = elim (reached w (omega arith)) [
      | inr (more, lt) ↦ inr (more, omega arith)
      | inl (m, e, le) ↦ elim (v.finished p m e) [
        | inl queued ↦
            inr ((p, queued), ground (arith, mem-append p now later, v.at_now p, v.at_later p))
        | inr (_, _, near) ↦
            let (m', e', le') = near q (omega arith) adj o in inl (m', e', omega arith)
      ]
    ]

  pub Inv-shift :
      {s : Search} {d : ℕ} {later : List Position} → Inv s d [] later → Inv s (d + 1) later []
  Inv-shift {s} {d} {later} v = record {
    split = v.split ∙ sym (append-nil later);
    at_now = v.at_later;
    at_later = λ p m. absurd m;
    begun = v.begun;
    sound = λ p n e. let (w, a, b) = v.sound p n e in (w, a, omega arith);
    finished = λ p n e. elim (v.finished p n e) [
      | inl m ↦ inl ((mem-append p later []).1 (inl m))
      | inr (a, b, c) ↦ inr (a, omega arith, c)
    ];
  }

  -- The round at `cur`, which is not the target.
  module _ {s : Search} {d : ℕ} {cur : Position} {rest later : List Position}
      (v : Inv s d (cur ∷ rest) later) (other : cur ≢ target) where
    abbrev popped : Search
    popped = record s { queue = rest ++ later }

    dist_of-cur : dist_of g cur popped ≡ d
    unfolding dist_of
    dist_of-cur = rw (v.at_now cur (inl refl), dist_of)

    Inv-far : max_steps ≤ d → Inv popped d rest later
    Inv-far far = record {
      split = refl;
      at_now = λ p m. v.at_now p (inr m);
      at_later = v.at_later;
      begun = v.begun;
      sound = v.sound;
      finished = λ p n e. elim (v.finished p n e) [
        | inr f ↦ inr f
        | inl (inr m) ↦ inl m
        | inl (inl is_cur) ↦
            let same : n ≡ d = ground (arith, v.at_now p (inl is_cur)) in
            inr (λ e'. other (sym is_cur ∙ e'), omega arith, λ q near. absurd (omega arith))
      ];
    }

    module _ {t : Search} {new : List Position} (close : d < max_steps)
        (grown : Grows g cur d popped t new) (covers : Covers g cur d neighbor_offsets t) where
      entry_le : (p : Position) (n : ℕ) → lookup p t.dist ≡ some n → n ≤ d + 1
      entry_le p n e = elim (grown.origin p n e) [
        | inl old ↦ (v.sound p n old).2
        | inr (e', _, _, _) ↦ omega arith
      ]

      scan_sound :
          (p : Position) (n : ℕ)
          → lookup p t.dist ≡ some n
          → Walk g start n p × (n ≤ max_steps) × (n ≤ d + 1)
      scan_sound p n e = elim (grown.origin p n e) [
        | inl old ↦ v.sound p n old
        | inr (e', m, adj, o) ↦ (
          subst (λ k. Walk g start k p) (omega arith)
              (step (v.sound cur d (v.at_now cur (inl refl))).0 adj o),
          omega arith,
          omega arith,
        )
      ]

      covered :
          (q : Position)
          → Adjacent cur q
          → is_open g q ≡ true
          → (m : ℕ) × (lookup q t.dist ≡ some m) × (m ≤ d + 1)
      covered q adj o =
          let (off, listed, e) = Adjacent-offset cur q adj in
          elim (Option-cases (lookup q t.dist)) [
            | inr (m, found) ↦ (m, found, entry_le q m found)
            | inl gone ↦ absurd (
                covers off listed (subst (λ r. is_open g r ≡ true) e o)
                  (subst (λ r. lookup r t.dist ≡ none) e gone))
          ]

      Inv-scan : Inv t d rest (later ++ new)
      Inv-scan = record {
        split = grown.joined ∙ append_assoc rest later new;
        at_now = λ p m. grown.kept p d (v.at_now p (inr m));
        at_later = λ p m.
            ground
              (arith, mem-append p later new, grown.fresh p, grown.kept p (d + 1), v.at_later p);
        begun = grown.kept start 0 v.begun;
        sound = scan_sound;
        finished = λ p n e. elim (grown.origin p n e) [
          | inr (_, m, _, _) ↦
              inl (ground (arith, mem-append p rest (later ++ new), mem-append p later new))
          | inl old ↦ elim (v.finished p n old) [
            | inl (inr m) ↦ inl (
                ground (
                  arith,
                  mem-append p rest (later ++ new),
                  mem-append p later new,
                  mem-append p rest later,
                ))
            | inl (inl is_cur) ↦
                let same : n ≡ d = ground (arith, v.at_now p (inl is_cur)) in
                inr (
                  λ e'. other (sym is_cur ∙ e'),
                  omega arith,
                  λ q near adj o.
                      let (m, found, le) = covered q (subst (λ r. Adjacent r q) is_cur adj) o in
                      (m, found, omega arith),
                )
            | inr (a, b, c) ↦ inr (
              a,
              b,
              λ q near adj o. let (m, found, le) = c q near adj o in (m, grown.kept q m found, le),
            )
          ]
        ];
      }

  abbrev pub work : Search → ℕ
  work s = unseen s.dist (positions g.width g.height) + length s.queue

  expand_at :
      (cur : Position) (s : Search) (n : ℕ)
      → dist_of g cur s ≡ n
      → expand g target max_steps cur s
        ≡ (if leb max_steps n then s else scan g cur n neighbor_offsets s)
  unfolding expand
  expand_at cur s n e = ap (λ k. if leb max_steps k then s else scan g cur k neighbor_offsets s) e

  -- What a round leaves in `t`.
  abbrev pub Rounded : Search → ℕ → List Position → Search → Type 0
  Rounded s d rest t = (later' : List Position) × Inv t d rest later' × (work t + 1 ≤ work s)

  -- A round that does not end the search keeps the invariant and lowers the work.
  pub expand-Rounded :
      {s : Search} {d : ℕ} {cur : Position} {rest later : List Position}
      → Inv s d (cur ∷ rest) later
      → cur ≢ target
      → Rounded s d rest (expand g target max_steps cur (record s { queue = rest ++ later }))
  expand-Rounded {s} {d} {cur} {rest} {later} v other =
      let popped : Search = record s { queue = rest ++ later } in
      let shorter : length s.queue ≡ suc (length (rest ++ later)) = ap length v.split in
      let at_cur = expand_at cur popped d (dist_of-cur v other) in
      elim (Bool-cases (leb max_steps d)) [
        | inl far ↦
            subst (Rounded s d rest) (sym (at_cur ∙ rw far refl))
              (later, Inv-far v other (leb→le max_steps d far), omega arith)
        | inr close ↦
            let (new, grown, covers) = scan-Grows g cur d neighbor_offsets popped (λ off m. m) in
            subst (Rounded s d rest) (sym (at_cur ∙ rw close refl)) (
              later ++ new,
              Inv-scan v other (ground arith) grown covers,
              omega (arith, grown.work),
            )
      ]
