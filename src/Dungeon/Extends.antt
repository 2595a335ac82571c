-- ===== src/Dungeon/Extends.antt =====
-- master/internal/dungeon: levels that grow by carving next to what is carved.
use layforge.Prelude.{
  ℕ, zero, suc, ◌≡◌, refl, sym, subst, ◌∙◌, ◌⊎◌, inl, inr, Bool, true, Bool-cases, arith,
  if◌then◌else◌, ◌+ℤ◌, Position, pos_eq, pos_eq_iff,
}
use layforge.Region.{Beside, Linked, stay, go, Linked-trans, Linked-mono, Linked-end}
use layforge.Dungeon.Level.{
  TileType, floor, tile_walkable, Level, level_in_bounds, carvable, level_set, walkable, IsSized,
  level_set-IsSized, tile_at-level_set, carvable-in_bounds,
}
use layforge.Dungeon.Shape.{Direction, north, east, south, west, delta, ahead, carve_corridor}

pub walkable-level_set :
    (l : Level) (q p : Position) (t : TileType)
    → IsSized l
    → level_in_bounds l q ≡ true
    → tile_walkable t ≡ true
    → walkable (level_set l q t) p ≡ (if pos_eq q p then true else walkable l p)
unfolding walkable
walkable-level_set l q p t s b w = ground (arith, tile_at-level_set l q p t s)

-- The level grew from the cell `a`: its size and its stairs stay, what could be walked on still can, and every new
-- cell to walk on is carvable and linked to `a`.
pub record Extends (a : Position) (l l' : Level) : Type 0 where
  pub width : l'.width ≡ l.width
  pub height : l'.height ≡ l.height
  pub stairs : l'.stairs ≡ l.stairs
  pub sized : IsSized l'
  pub grows : (q : Position) → walkable l q ≡ true → walkable l' q ≡ true
  pub links :
      (q : Position)
      → walkable l' q ≡ true
      → (walkable l q ≡ true) ⊎ ((carvable l q ≡ true) × Linked (walkable l') a q)

pub Extends-refl : (a : Position) (l : Level) → IsSized l → Extends a l l
Extends-refl a l s = record {
  width = refl;
  height = refl;
  stairs = refl;
  sized = s;
  grows = λ q w. w;
  links = λ q w. inl w;
}

pub same_carvable :
    (l l' : Level) (q : Position)
    → l'.width ≡ l.width
    → l'.height ≡ l.height
    → carvable l' q ≡ carvable l q
unfolding carvable
same_carvable l l' q w h = rw (w, h) refl

pub Extends-trans :
    (a b : Position) (l l' l'' : Level)
    → Extends a l l'
    → Linked (walkable l') a b
    → Extends b l' l''
    → Extends a l l''
Extends-trans a b l l' l'' e r f = record {
  width = f.width ∙ e.width;
  height = f.height ∙ e.height;
  stairs = f.stairs ∙ e.stairs;
  sized = f.sized;
  grows = λ q w. f.grows q (e.grows q w);
  links = λ q w. elim (f.links q w) [
    | inl v ↦ elim (e.links q v) [ inl u ↦ inl u | inr (c, m) ↦ inr (c, Linked-mono f.grows m) ]
    | inr (c, m) ↦
        inr
          (sym (same_carvable l l' q e.width e.height) ∙ c, Linked-trans (Linked-mono f.grows r) m)
  ];
}

level_set_width : (l : Level) (q : Position) (t : TileType) → (level_set l q t).width ≡ l.width
unfolding level_set
level_set_width l q t = refl

level_set_height : (l : Level) (q : Position) (t : TileType) → (level_set l q t).height ≡ l.height
unfolding level_set
level_set_height l q t = refl

level_set_stairs : (l : Level) (q : Position) (t : TileType) → (level_set l q t).stairs ≡ l.stairs
unfolding level_set
level_set_stairs l q t = refl

-- One cell carved next to `a`.
pub level_set-Extends :
    (a q : Position) (l : Level) (t : TileType)
    → IsSized l
    → walkable l a ≡ true
    → carvable l q ≡ true
    → Beside a q
    → tile_walkable t ≡ true
    → Extends a l (level_set l q t)
level_set-Extends a q l t s w c b tw = record {
  width = same_width;
  height = same_height;
  stairs = level_set_stairs l q t;
  sized = level_set-IsSized l q t s;
  grows = grows;
  links = λ p v. elim (Bool-cases (pos_eq q p)) [
    | inl e ↦ inr (
      subst (λ z. carvable l z ≡ true) ((pos_eq_iff q p).0 e) c,
      subst (λ z. Linked (walkable (level_set l q t)) a z) ((pos_eq_iff q p).0 e)
          (go (stay (grows a w)) b at_q),
    )
    | inr e ↦ inl (ground (arith, at p))
  ];
}
  where
    at : (p : Position) → walkable (level_set l q t) p ≡ (if pos_eq q p then true else walkable l p)
    at p = walkable-level_set l q p t s (carvable-in_bounds l q c) tw

    grows : (p : Position) → walkable l p ≡ true → walkable (level_set l q t) p ≡ true
    grows p v = ground (arith, at p)

    at_q : walkable (level_set l q t) q ≡ true
    at_q = ground (arith, at q, pos_eq_iff q q)

    same_width : (level_set l q t).width ≡ l.width
    same_width = level_set_width l q t

    same_height : (level_set l q t).height ≡ l.height
    same_height = level_set_height l q t

pub level_set-Linked :
    (a q : Position) (l : Level) (t : TileType)
    → IsSized l
    → walkable l a ≡ true
    → carvable l q ≡ true
    → Beside a q
    → tile_walkable t ≡ true
    → Linked (walkable (level_set l q t)) a q
level_set-Linked a q l t s w c b tw =
    go (stay ((level_set-Extends a q l t s w c b tw).grows a w)) b
      (ground (arith, walkable-level_set l q q t s (carvable-in_bounds l q c) tw, pos_eq_iff q q))

pub Beside-ahead : (p : Position) (d : Direction) → Beside p (ahead p d)
unfolding Beside ahead delta ◌+ℤ◌
Beside-ahead p north = ground arith
Beside-ahead p east = ground arith
Beside-ahead p south = ground arith
Beside-ahead p west = ground arith

-- From a cell that can be walked on, on a level whose tiles fill its size, `carveCorridor` only
-- adds carvable cells linked to it, keeps all that could be walked on, and stops on a cell linked to it.
pub carve_corridor-Extends :
    (n : ℕ) (p : Position) (d : Direction) (moved : Bool) (l : Level)
    → IsSized l
    → walkable l p ≡ true
    → Extends p l (carve_corridor n p d moved l).2
      × Linked (walkable (carve_corridor n p d moved l).2) p (carve_corridor n p d moved l).0
unfolding carve_corridor
carve_corridor-Extends zero p d moved l s w = (Extends-refl p l s, stay w)
carve_corridor-Extends (suc n) p d moved l s w = elim (Bool-cases (carvable l (ahead p d))) [
  | inr e ↦ rw e (Extends-refl p l s, stay w)
  | inl c ↦ elim (Bool-cases (walkable l (ahead p d))) [
    | inl v ↦ rw (c, v) (Extends-refl p l s, go (stay w) (Beside-ahead p d) v)
    | inr v ↦
        rw (c, v)
          (let step = level_set-Extends p (ahead p d) l floor s w c (Beside-ahead p d) refl in
            let link = level_set-Linked p (ahead p d) l floor s w c (Beside-ahead p d) refl in
            let (e, m) =
              carve_corridor-Extends n (ahead p d) d true (level_set l (ahead p d) floor) step.sized
                (Linked-end link) in
            (
              Extends-trans p (ahead p d) l (level_set l (ahead p d) floor) _ step link e,
              Linked-trans (Linked-mono e.grows link) m,
            ))
  ]
]
