-- ===== src/Dungeon/Features.antt =====
-- master/internal/dungeon/generator.go: placing features changes nothing else of a level.
use layforge.Prelude.{
  ℕ, suc, ◌≡◌, refl, sym, subst, ◌∙◌, inl, inr, true, List, [], ◌∷◌, Bool-cases, arith,
  if◌then◌else◌, ltb, leb, ◌==◌, ℤ, pos, pos_part, ◌+ℤ◌, ◌-ℤ◌, +ℤ_parts, -ℤ_parts, ltb_ℤ, leb_ℤ,
  ◌||◌, Position, Rand, Draws, draw, draw-then, pos_eq, bind-Draws, if-Draws, Draws-weaken, pure,
  ◌>>=◌,
}
use layforge.Dungeon.Level.{tile_at, Feature, FeatureKind, statue, shrine, Level, walkable}
use layforge.Dungeon.Shape.{Rect, ints}
use layforge.Dungeon.Generator.{add_feature, feature_kind, center}
use layforge.Dungeon.Generator.Rooms.{
  intn, scatter_cell, scatter_row, scatter_rows, scatter_features, feature_at, second_feature,
  vault_features,
}
use layforge.Dungeon.Extends.{Extends}

-- The level differs in its features only.
abbrev pub Decorated : Level → Level → Type 0
Decorated l l' = (fs : List Feature) × (l' ≡ record l { features = fs })

-- The same of a level that comes with a count of features.
abbrev Counted : Level → ℕ × Level → Type 0
Counted l st = Decorated l st.1

Decorated-refl : (l : Level) → Decorated l l
Decorated-refl l = (l.features, refl)

pub Decorated-trans : (l m n : Level) → Decorated l m → Decorated m n → Decorated l n
Decorated-trans l m n (a, e) (b, f) =
    (b, f ∙ subst (λ z. record z { features = b } ≡ record l { features = b }) (sym e) refl)

pub Decorated-add_feature :
    (l : Level) (p : Position) (k : FeatureKind) → Decorated l (add_feature p k l)
unfolding add_feature
Decorated-add_feature l p k = ((add_feature p k l).features, refl)

pub Extends-Decorated :
    (a : Position) (l m n : Level) → Extends a l m → Decorated m n → Extends a l n
unfolding walkable tile_at
Extends-Decorated a l m n e (fs, f) = subst (Extends a l) (sym f) (record {
  width = e.width;
  height = e.height;
  stairs = e.stairs;
  sized = e.sized;
  grows = e.grows;
  links = e.links;
})

pub span : (a b : ℤ) → leb_ℤ a b ≡ true → leb_ℤ (pos 1) (b -ℤ a +ℤ pos 1) ≡ true
span a b h = ground (arith, -ℤ_parts b a, +ℤ_parts (b -ℤ a) (pos 1))

module _ (rand : Rand) where
  scatter_cell-Draws :
      (p : Position) (n : ℕ) (l : Level) (s : rand.Source)
      → Draws (Counted l) (scatter_cell rand p (n, l) s)
  unfolding scatter_cell
  scatter_cell-Draws p n l s =
      draw-then rand 100 (Counted l)
        (λ r.
          if leb 8 r
          then pure (n, l)
          else draw rand 4 >>= λ k. pure (suc n, add_feature p (feature_kind k) l))
        s (omega arith)
        (λ r s' lt.
          if-Draws (leb 8 r) (pure (n, l))
            (draw rand 4 >>= λ k. pure (suc n, add_feature p (feature_kind k) l)) s' (Counted l)
            (Decorated-refl l)
            (draw-then rand 4 (Counted l) (λ k. pure (suc n, add_feature p (feature_kind k) l)) s'
              (omega arith) (λ k s'' lt. Decorated-add_feature l p (feature_kind k))))

  scatter_row-Draws :
      (xs : List ℤ) (y : ℤ) (st : ℕ × Level) (s : rand.Source)
      → Draws (Counted st.1) (scatter_row rand xs y st s)
  unfolding scatter_row
  scatter_row-Draws [] y st s = Decorated-refl st.1
  scatter_row-Draws (x ∷ xs) y st s =
      if-Draws (ltb st.0 3)
        (scatter_cell rand (record { x = x; y = y }) st >>= scatter_row rand xs y) (pure st) s
        (Counted st.1)
        (bind-Draws (Counted st.1) (Counted st.1) (scatter_cell rand (record { x = x; y = y }) st)
          (scatter_row rand xs y) s (scatter_cell-Draws (record { x = x; y = y }) st.0 st.1 s)
          (λ t s' d.
            Draws-weaken (Counted t.1) (Counted st.1) (scatter_row rand xs y t s')
              (λ u e. Decorated-trans st.1 t.1 u.1 d e) (scatter_row-Draws xs y t s')))
        (Decorated-refl st.1)

  scatter_rows-Draws :
      (xs ys : List ℤ) (st : ℕ × Level) (s : rand.Source)
      → Draws (Counted st.1) (scatter_rows rand xs ys st s)
  unfolding scatter_rows
  scatter_rows-Draws xs [] st s = Decorated-refl st.1
  scatter_rows-Draws xs (y ∷ ys) st s =
      if-Draws (ltb st.0 3) (scatter_row rand xs y st >>= scatter_rows rand xs ys) (pure st) s
        (Counted st.1)
        (bind-Draws (Counted st.1) (Counted st.1) (scatter_row rand xs y st)
          (scatter_rows rand xs ys) s (scatter_row-Draws xs y st s)
          (λ t s' d.
            Draws-weaken (Counted t.1) (Counted st.1) (scatter_rows rand xs ys t s')
              (λ u e. Decorated-trans st.1 t.1 u.1 d e) (scatter_rows-Draws xs ys t s')))
        (Decorated-refl st.1)

  pub scatter_features-Draws :
      (r : Rect) (l : Level) (s : rand.Source) → Draws (Decorated l) (scatter_features rand r l s)
  unfolding scatter_features
  scatter_features-Draws r l s =
      if-Draws (ltb_ℤ (r.max_x -ℤ r.min_x) (pos 2) || ltb_ℤ (r.max_y -ℤ r.min_y) (pos 2)) (pure l)
        (scatter_rows rand (ints (r.min_x +ℤ pos 1) (r.max_x -ℤ pos 1))
            (ints (r.min_y +ℤ pos 1) (r.max_y -ℤ pos 1)) (0, l)
          >>= λ t. pure t.1)
        s (Decorated l) (Decorated-refl l)
        (bind-Draws (Counted l) (Decorated l)
          (scatter_rows rand (ints (r.min_x +ℤ pos 1) (r.max_x -ℤ pos 1))
            (ints (r.min_y +ℤ pos 1) (r.max_y -ℤ pos 1)) (0, l))
          (λ t. pure t.1) s
          (scatter_rows-Draws (ints (r.min_x +ℤ pos 1) (r.max_x -ℤ pos 1))
            (ints (r.min_y +ℤ pos 1) (r.max_y -ℤ pos 1)) (0, l) s)
          (λ t s' d. d))

  pub intn-Draws :
      (n : ℤ) (s : rand.Source)
      → leb_ℤ (pos 1) n ≡ true
      → Draws (λ k. (leb_ℤ (pos 0) k ≡ true) × (ltb_ℤ k n ≡ true)) (intn rand n s)
  unfolding intn
  intn-Draws n s h =
      draw-then {B = ℤ} rand (pos_part n) (λ k. (leb_ℤ (pos 0) k ≡ true) × (ltb_ℤ k n ≡ true))
        (λ k. pure (pos k)) s (ground arith) (λ k s' lt. (ground arith, ground arith))

  feature_at-Draws :
      (r : Rect) (p : Position) (l : Level) (s : rand.Source)
      → Draws (Decorated l) (feature_at rand r p l s)
  unfolding feature_at
  feature_at-Draws r p l s = elim (Bool-cases (pos_eq p (center r))) [
    | inl e ↦ rw e (Decorated-refl l)
    | inr e ↦ rw e (
        draw-then rand 2 (Decorated l)
          (λ coin. pure (add_feature p (if coin == 0 then statue else shrine) l)) s (omega arith)
          (λ k s' lt. Decorated-add_feature l p (if k == 0 then statue else shrine)))
  ]

  second_feature-Draws :
      (r : Rect) (l : Level) (s : rand.Source)
      → leb_ℤ r.min_x r.max_x ≡ true
      → leb_ℤ r.min_y r.max_y ≡ true
      → Draws (Decorated l) (second_feature rand r l s)
  unfolding second_feature
  second_feature-Draws r l s a b =
      bind-Draws (λ k. (leb_ℤ (pos 0) k ≡ true) × (ltb_ℤ k _ ≡ true)) (Decorated l)
        (intn rand (r.max_x -ℤ r.min_x +ℤ pos 1))
        (λ kx. intn rand (r.max_y -ℤ r.min_y +ℤ pos 1) >>= λ ky.
          feature_at rand r (record { x = r.min_x +ℤ kx; y = r.min_y +ℤ ky }) l)
        s (intn-Draws (r.max_x -ℤ r.min_x +ℤ pos 1) s (span r.min_x r.max_x a))
        (λ kx s' lt.
          bind-Draws (λ k. (leb_ℤ (pos 0) k ≡ true) × (ltb_ℤ k _ ≡ true)) (Decorated l)
            (intn rand (r.max_y -ℤ r.min_y +ℤ pos 1))
            (λ ky. feature_at rand r (record { x = r.min_x +ℤ kx; y = r.min_y +ℤ ky }) l) s'
            (intn-Draws (r.max_y -ℤ r.min_y +ℤ pos 1) s' (span r.min_y r.max_y b))
            (λ ky s'' lt'.
              feature_at-Draws r (record { x = r.min_x +ℤ kx; y = r.min_y +ℤ ky }) l s''))

  pub vault_features-Draws :
      (r : Rect) (l : Level) (s : rand.Source)
      → leb_ℤ r.min_x r.max_x ≡ true
      → leb_ℤ r.min_y r.max_y ≡ true
      → Draws (Decorated l) (vault_features rand r l s)
  unfolding vault_features
  vault_features-Draws r l s a b =
      draw-then rand 2 (Decorated l) (λ coin. if coin == 0 then second_feature rand r l else pure l)
        s (omega arith)
        (λ k s' lt.
          if-Draws (k == 0) (second_feature rand r l) (pure l) s' (Decorated l)
            (second_feature-Draws r l s' a b) (Decorated-refl l))
