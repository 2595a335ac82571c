-- ===== src/Dungeon/Joining.antt =====
-- master/internal/dungeon/generator.go: stairs in matching pairs between a level and a new one.
use layforge.Prelude.{
  ℕ, suc, ◌<◌, ◌≡◌, refl, sym, subst, ◌∙◌, inl, inr, ◌⊎◌, ◌≢◌, true, some, List, [], ◌∷◌, ◌++◌,
  Bool-cases, arith, ◌==◌, ==_iff, length, length-set, length-append, get_elem?, set, ◌∈◌,
  mem-append, Position, get_elem?-set_ne, get_elem?-set_self, pos_eq, pos_eq_iff,
}
use layforge.Dungeon.Level.{
  TileType, tile_walkable, up, down, stairs_up, Stair, Level, level_set, level_set-IsSized,
  walkable, walkable-in_bounds, tile_at, IsSized,
}
use layforge.Dungeon.Generator.{ExpansionPoint, add_stair}
use layforge.Dungeon.Extends.{walkable-level_set}
use layforge.Dungeon.Sound.{Matched, set-Matched, Sound, get_elem?-some}
use layforge.Dungeon.Stairs.{
  get_elem?-snoc, append-cases, append-Matched, get_elem?-append, Reworked, Laid, set-Laid,
}

-- A level with one more stair, and perhaps another tile where one can walk.
add_stair-Reworked : (st : Stair) (l l' : Level) → Reworked l l' → Reworked l (add_stair st l')
unfolding add_stair walkable tile_at
add_stair-Reworked st l l' r = record { sized = r.sized; same = r.same }

pub level_set-Reworked :
    (l : Level) (p : Position) (t : TileType)
    → IsSized l
    → walkable l p ≡ true
    → tile_walkable t ≡ true
    → Reworked l (level_set l p t)
level_set-Reworked l p t s w tw = record {
  sized = level_set-IsSized l p t s;
  same = λ q. elim (Bool-cases (pos_eq p q)) [
    | inl e ↦ ground (
      arith,
      walkable-level_set l p q t s (walkable-in_bounds l p w) tw,
      subst (λ z. walkable l z ≡ true) ((pos_eq_iff p q).0 e) w,
    )
    | inr e ↦ ground (arith, walkable-level_set l p q t s (walkable-in_bounds l p w) tw)
  ];
}

Reworked-refl : (l : Level) → IsSized l → Reworked l l
Reworked-refl l s = record { sized = s; same = λ p. refl }

-- The levels with the stairs of `join_stairs` on level `i` and on the last level.
module _ (ls : List Level) (l child : Level) (i : ℕ) (s c : Position) where
  abbrev upper : Level
  upper = add_stair (record { at = s; dir = down; to_level = length ls }) l

  abbrev lower : Level
  lower = add_stair (record { at = c; dir = up; to_level = i }) (level_set child c stairs_up)

  abbrev pub joined_levels : List Level
  joined_levels = set (set (ls ++ child ∷ []) i upper) (length ls) lower

  at_lower : get_elem? ls i ≡ some l → get_elem? joined_levels (length ls) ≡ some lower
  at_lower h =
      get_elem?-set_self (set (ls ++ child ∷ []) i upper) (length ls) lower
        (omega (arith, length-set (ls ++ child ∷ []) i upper, length-append ls (child ∷ [])))

  below : get_elem? ls i ≡ some l → (length ls ≢ i)
  below h e = omega (arith, get_elem?-some ls i l h)

  elsewhere :
      (j : ℕ)
      → (length ls ≢ j)
      → get_elem? joined_levels j ≡ get_elem? (set (ls ++ child ∷ []) i upper) j
  elsewhere j k = get_elem?-set_ne (set (ls ++ child ∷ []) i upper) (length ls) j lower k

  at_upper : get_elem? ls i ≡ some l → get_elem? joined_levels i ≡ some upper
  at_upper h =
      elsewhere i (below h)
      ∙ get_elem?-set_self (ls ++ child ∷ []) i upper
          (omega (arith, get_elem?-some ls i l h, length-append ls (child ∷ [])))

  -- A level of the joined dungeon is the lower one, the upper one, or an old one.
  joined-cases :
      (j : ℕ) (m : Level)
      → get_elem? ls i ≡ some l
      → get_elem? joined_levels j ≡ some m
      → ((j ≡ length ls) × (lower ≡ m)) ⊎ (((j ≡ i) × (upper ≡ m)) ⊎ (get_elem? ls j ≡ some m))
  joined-cases j m h q = elim (Bool-cases (length ls == j)) [
    | inl e ↦
        inl
          (sym ((==_iff (length ls) j).0 e), ground (arith, at_lower h, (==_iff (length ls) j).0 e))
    | inr e ↦ elim (Bool-cases (i == j)) [
      | inl d ↦ inr (inl (sym ((==_iff i j).0 d), ground (arith, at_upper h, (==_iff i j).0 d)))
      | inr d ↦ inr (
          inr
            (elim (append-cases ls child m j (
              ground (
                arith,
                elsewhere j,
                ==_iff (length ls) j,
                get_elem?-set_ne (ls ++ child ∷ []) i j upper,
                ==_iff i j,
              ))) [ inl f ↦ f | inr (f, k) ↦ absurd (ground (arith, ==_iff (length ls) j)) ]))
    ]
  ]

  upper_stairs :
      (t : Stair)
      → (t ∈ upper.stairs)
      → (t ∈ l.stairs) ⊎ (t ≡ record { at = s; dir = down; to_level = length ls })
  unfolding add_stair
  upper_stairs t n =
      ground
        (arith, mem-append t l.stairs (record { at = s; dir = down; to_level = length ls } ∷ []))

  upper_new : record { at = s; dir = down; to_level = length ls } ∈ upper.stairs
  unfolding add_stair
  upper_new =
      (mem-append (record { at = s; dir = down; to_level = length ls }) l.stairs
          (record { at = s; dir = down; to_level = length ls } ∷ [])).1
        (inr (inl refl))

  upper_old : (t : Stair) → t ∈ l.stairs → t ∈ upper.stairs
  unfolding add_stair
  upper_old t n =
      (mem-append t l.stairs (record { at = s; dir = down; to_level = length ls } ∷ [])).1 (inl n)

  lower_stairs :
      (t : Stair)
      → child.stairs ≡ []
      → t ∈ lower.stairs
      → t ≡ record { at = c; dir = up; to_level = i }
  unfolding add_stair level_set
  lower_stairs t e n =
      ground (arith, subst (λ z. t ∈ z ++ record { at = c; dir = up; to_level = i } ∷ []) e n)

  lower_new : record { at = c; dir = up; to_level = i } ∈ lower.stairs
  unfolding add_stair
  lower_new =
      (mem-append (record { at = c; dir = up; to_level = i }) (level_set child c stairs_up).stairs
          (record { at = c; dir = up; to_level = i } ∷ [])).1
        (inr (inl refl))

  -- A matched stair stays so.
  joined-Matched :
      (j : ℕ) (st : Stair)
      → get_elem? ls i ≡ some l
      → child.stairs ≡ []
      → Matched ls j st
      → Matched joined_levels j st
  joined-Matched j st h e m =
      set-Matched (set (ls ++ child ∷ []) i upper) (length ls) j child lower st
        (get_elem?-set_ne (ls ++ child ∷ []) i (length ls) upper (λ q. below h (sym q))
          ∙ get_elem?-snoc ls child)
        (λ t n. absurd (subst (λ z. t ∈ z) e n))
        (set-Matched (ls ++ child ∷ []) i j l upper st (get_elem?-append ls child l i h) upper_old
          (append-Matched ls child j st m))

  down-Matched :
      get_elem? ls i ≡ some l
      → Matched joined_levels i (record { at = s; dir = down; to_level = length ls })
  down-Matched h =
      (lower, at_lower h, record { at = c; dir = up; to_level = i }, lower_new, refl, tt)

  up-Matched :
      get_elem? ls i ≡ some l
      → Matched joined_levels (length ls) (record { at = c; dir = up; to_level = i })
  up-Matched h =
      (upper, at_upper h, record { at = s; dir = down; to_level = length ls }, upper_new, refl, tt)

walkable-add_stair :
    (l : Level) (st : Stair) (p : Position) → walkable (add_stair st l) p ≡ walkable l p
unfolding add_stair walkable tile_at
walkable-add_stair l st p = refl

module _ (max_levels : ℕ) (entrance : Position) where
  -- The stairs complete a sound generator to which a level without stairs was appended.
  pub joined-Sound :
      (ls : List Level) (frontier front : List ExpansionPoint) (l child : Level) (i : ℕ)
      (s c : Position)
      → Sound max_levels entrance (record { levels = ls; frontier = frontier })
      → Laid entrance (record { levels = ls ++ child ∷ []; frontier = front })
      → child.stairs ≡ []
      → get_elem? ls i ≡ some l
      → walkable l s ≡ true
      → walkable child c ≡ true
      → length ls < max_levels
      → Sound max_levels entrance
          (record { levels = joined_levels ls l child i s c; frontier = front })
  unfolding tile_walkable
  joined-Sound ls frontier front l child i s c f laid e h ws wc lt = record {
    joined = done.joined;
    rooted = done.rooted;
    entered = done.entered;
    anchored = λ j m st q n. elim (joined-cases ls l child i s c j m h q) [
      | inl (a, b) ↦
          subst (λ z. walkable z st.at ≡ true) b
            (subst (λ z. walkable (lower ls l child i s c) z.at ≡ true)
              (sym (lower_stairs ls l child i s c st e (subst (λ z. st ∈ z.stairs) (sym b) n)))
              (redone.same c ∙ wc))
      | inr (inl (a, b)) ↦
          subst (λ z. walkable z st.at ≡ true) b
            (walkable-add_stair l (record { at = s; dir = down; to_level = length ls }) st.at
              ∙ (elim (upper_stairs ls l child i s c st (subst (λ z. st ∈ z.stairs) (sym b) n)) [
                | inl o ↦ f.anchored i l st h o
                | inr o ↦ subst (λ z. walkable l z.at ≡ true) (sym o) ws
              ]))
      | inr (inr o) ↦ f.anchored j m st o n
    ];
    paired = λ j m st q n. elim (joined-cases ls l child i s c j m h q) [
      | inl (a, b) ↦
          subst (λ z. Matched (joined_levels ls l child i s c) z st) (sym a)
            (subst (λ z. Matched (joined_levels ls l child i s c) (length ls) z)
              (sym (lower_stairs ls l child i s c st e (subst (λ z. st ∈ z.stairs) (sym b) n)))
              (up-Matched ls l child i s c h))
      | inr (inl (a, b)) ↦
          subst (λ z. Matched (joined_levels ls l child i s c) z st) (sym a)
            (elim (upper_stairs ls l child i s c st (subst (λ z. st ∈ z.stairs) (sym b) n)) [
              | inl o ↦ joined-Matched ls l child i s c i st h e (f.paired i l st h o)
              | inr o ↦
                  subst (λ z. Matched (joined_levels ls l child i s c) i z) (sym o)
                    (down-Matched ls l child i s c h)
            ])
      | inr (inr o) ↦ joined-Matched ls l child i s c j st h e (f.paired j m st o n)
    ];
    arrived = λ j m q. elim (joined-cases ls l child i s c (suc j) m h q) [
      | inl (a, b) ↦ (
        record { at = c; dir = up; to_level = i },
        subst (λ z. record { at = c; dir = up; to_level = i } ∈ z.stairs) b
            (lower_new ls l child i s c),
        refl,
      )
      | inr (inl (a, b)) ↦
          let (st, n, u) = f.arrived j l (subst (λ z. get_elem? ls z ≡ some l) (sym a) h) in
          (st, subst (λ z. st ∈ z.stairs) b (upper_old ls l child i s c st n), u)
      | inr (inr o) ↦ f.arrived j m o
    ];
    capped = omega (
      arith,
      length-set (set (ls ++ child ∷ []) i (upper ls l child i s c)) (length ls)
          (lower ls l child i s c),
      length-set (ls ++ child ∷ []) i (upper ls l child i s c),
      length-append ls (child ∷ []),
    );
  }
    where
      last : get_elem? (ls ++ child ∷ []) (length ls) ≡ some child
      last = get_elem?-snoc ls child

      redone : Reworked child (lower ls l child i s c)
      redone =
          add_stair-Reworked (record { at = c; dir = up; to_level = i }) child
            (level_set child c stairs_up)
            (level_set-Reworked child c stairs_up (laid.joined (length ls) child last).sized wc
              refl)

      half :
          Laid entrance (record {
            levels = set (ls ++ child ∷ []) i (upper ls l child i s c);
            frontier = front;
          })
      half =
          set-Laid entrance i l (upper ls l child i s c)
            (record { levels = ls ++ child ∷ []; frontier = front }) laid
            (get_elem?-append ls child l i h)
            (add_stair-Reworked (record { at = s; dir = down; to_level = length ls }) l l
              (Reworked-refl l (f.joined i l h).sized))

      done : Laid entrance (record { levels = joined_levels ls l child i s c; frontier = front })
      done =
          set-Laid entrance (length ls) child (lower ls l child i s c)
            (record {
              levels = set (ls ++ child ∷ []) i (upper ls l child i s c);
              frontier = front;
            })
            half
            (get_elem?-set_ne (ls ++ child ∷ []) i (length ls) (upper ls l child i s c)
                (λ q. below ls l child i s c h (sym q))
              ∙ last)
            redone
