-- ===== src/Dungeon/Stairs.antt =====
-- master/internal/dungeon/generator.go: a new level below, and the stairs that join it.
use layforge.Prelude.{
  ℕ, zero, suc, ◌≡◌, refl, sym, subst, ◌∙◌, inl, inr, ◌⊎◌, true, some, List, [], ◌∷◌, ◌++◌,
  Bool-cases, arith, ◌==◌, length, get_elem?, set, All, Position,
}
use layforge.Region.{Linked-mono}
use layforge.Dungeon.Level.{Stair, Level, walkable, IsSized}
use layforge.Dungeon.Generator.{Generator}
use layforge.Dungeon.Sound.{Joined, Standing, Rooted, Matched, All-map, get_elem?-set, set-Standing}

pub get_elem?-snoc : (ls : List Level) (x : Level) → get_elem? (ls ++ x ∷ []) (length ls) ≡ some x
get_elem?-snoc [] x = refl
get_elem?-snoc (y ∷ ls) x = get_elem?-snoc ls x

pub set-snoc : (ls : List Level) (x y : Level) → set (ls ++ x ∷ []) (length ls) y ≡ ls ++ y ∷ []
set-snoc [] x y = refl
set-snoc (z ∷ ls) x y = rw (set-snoc ls x y) refl

pub get_elem?-append :
    (ls : List Level) (x m : Level) (i : ℕ)
    → get_elem? ls i ≡ some m
    → get_elem? (ls ++ x ∷ []) i ≡ some m
get_elem?-append [] x m i h = absurd (ground arith)
get_elem?-append (y ∷ ls) x m zero h = h
get_elem?-append (y ∷ ls) x m (suc i) h = get_elem?-append ls x m i h

pub append-cases :
    (ls : List Level) (x m : Level) (i : ℕ)
    → get_elem? (ls ++ x ∷ []) i ≡ some m
    → (get_elem? ls i ≡ some m) ⊎ ((i ≡ length ls) × (x ≡ m))
append-cases [] x m zero h = inr (refl, ground arith)
append-cases [] x m (suc i) h = absurd (ground arith)
append-cases (y ∷ ls) x m zero h = inl h
append-cases (y ∷ ls) x m (suc i) h = ground (arith, append-cases ls x m i h)

append-Standing :
    (ls : List Level) (x : Level) (i : ℕ) (p : Position)
    → Standing ls i p
    → Standing (ls ++ x ∷ []) i p
append-Standing ls x i p (l, e, w) = (l, get_elem?-append ls x l i e, w)

pub append-Matched :
    (ls : List Level) (x : Level) (i : ℕ) (st : Stair)
    → Matched ls i st
    → Matched (ls ++ x ∷ []) i st
append-Matched ls x i st (m, e, t, n, b, o) = (m, get_elem?-append ls x m st.to_level e, t, n, b, o)

-- The same cells can be walked on.
pub record Reworked (l l' : Level) : Type 0 where
  pub sized : IsSized l'
  pub same : (p : Position) → walkable l' p ≡ walkable l p

pub Reworked-Joined : (l l' : Level) → Reworked l l' → Joined l → Joined l'
Reworked-Joined l l' r j = record {
  sized = r.sized;
  linked = λ p q v u.
      Linked-mono (λ z w. r.same z ∙ w) (j.linked p q (sym (r.same p) ∙ v) (sym (r.same q) ∙ u));
}

-- What the invariant says of the levels, but for their stairs.
pub record Laid (entrance : Position) (g : Generator) : Type 0 where
  pub joined : (i : ℕ) (l : Level) → get_elem? g.levels i ≡ some l → Joined l
  pub rooted : All (Rooted g.levels) g.frontier
  pub entered : Standing g.levels 0 entrance

pub set-Laid :
    (entrance : Position) (i : ℕ) (l l' : Level) (g : Generator)
    → Laid entrance g
    → get_elem? g.levels i ≡ some l
    → Reworked l l'
    → Laid entrance (record g { levels = set g.levels i l' })
set-Laid entrance i l l' g s h r = record {
  joined = λ j m q. elim (Bool-cases (i == j)) [
    | inl c ↦
        subst Joined (ground (arith, get_elem?-set g.levels i j l l' h))
          (Reworked-Joined l l' r (s.joined i l h))
    | inr c ↦ s.joined j m (ground (arith, get_elem?-set g.levels i j l l' h))
  ];
  rooted =
      All-map (Rooted g.levels) (Rooted (set g.levels i l')) g.frontier
        (λ x y. set-Standing g.levels i x.level l l' x.at h grows y) s.rooted;
  entered = set-Standing g.levels i 0 l l' entrance h grows s.entered;
}
  where
    grows : (q : Position) → walkable l q ≡ true → walkable l' q ≡ true
    grows q w = r.same q ∙ w

pub append-Laid :
    (entrance : Position) (x : Level) (g : Generator)
    → Laid entrance g
    → Joined x
    → Laid entrance (record g { levels = g.levels ++ x ∷ [] })
append-Laid entrance x g s j = record {
  joined = λ i m q. elim (append-cases g.levels x m i q) [
    | inl e ↦ s.joined i m e
    | inr (e, f) ↦ subst Joined f j
  ];
  rooted =
      All-map (Rooted g.levels) (Rooted (g.levels ++ x ∷ [])) g.frontier
        (λ y r. append-Standing g.levels x y.level y.at r) s.rooted;
  entered = append-Standing g.levels x 0 entrance s.entered;
}
