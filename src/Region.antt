-- ===== src/Region.antt =====
-- Reachability by steps north, east, south and west inside a region of cells: what both map
-- generators promise of the floor that they carve.
use layforge.Prelude.{
  ℕ, zero, suc, ◌+◌, ◌-◌, ◌≤◌, ◌≡◌, subst, ◌⊎◌, inl, inr, Bool, true, arith, pos, pos_part,
  neg_part, Position,
}

-- One orthogonal step.
unfoldable pub Beside : Position → Position → Type 0
Beside p q =
    (p.y ≡ q.y) × (pos_part p.x + neg_part q.x + 1 ≡ pos_part q.x + neg_part p.x)
    ⊎ ((p.y ≡ q.y) × (pos_part q.x + neg_part p.x + 1 ≡ pos_part p.x + neg_part q.x)
        ⊎ ((p.x ≡ q.x) × (pos_part p.y + neg_part q.y + 1 ≡ pos_part q.y + neg_part p.y)
            ⊎ (p.x ≡ q.x) × (pos_part q.y + neg_part p.y + 1 ≡ pos_part p.y + neg_part q.y)))

Beside-sym : (p q : Position) → Beside p q → Beside q p
unfolding Beside
Beside-sym p q h = ground arith

pub data Linked (region : Position → Bool) (p : Position) : Position → Type 0 where
  stay : region p ≡ true → Linked region p p
  go : {q r : Position} → Linked region p q → Beside q r → region r ≡ true → Linked region p r

module _ {region : Position → Bool} where
  pub Linked-end : {p q : Position} → Linked region p q → region q ≡ true
  Linked-end (stay h) = h
  Linked-end (go l b h) = h

  pub Linked-start : {p q : Position} → Linked region p q → region p ≡ true
  Linked-start (stay h) = h
  Linked-start (go l b h) = Linked-start l

  pub Linked-trans : {p q r : Position} → Linked region p q → Linked region q r → Linked region p r
  Linked-trans l (stay h) = l
  Linked-trans l (go m b h) = go (Linked-trans l m) b h

  pub Linked-sym : {p q : Position} → Linked region p q → Linked region q p
  Linked-sym (stay h) = stay h
  Linked-sym {p} (go {q} {r} l b h) =
      Linked-trans (go (stay h) (Beside-sym q r b) (Linked-end l)) (Linked-sym l)

  pub Linked-step :
      (p q : Position) → region p ≡ true → region q ≡ true → Beside p q → Linked region p q
  Linked-step p q hp hq b = go (stay hp) b hq

  -- A larger region keeps the links.
  pub Linked-mono :
      {wider : Position → Bool}
      → ((q : Position) → region q ≡ true → wider q ≡ true)
      → {p q : Position} → Linked region p q
      → Linked wider p q
  Linked-mono grow {p} (stay h) = stay (grow p h)
  Linked-mono grow (go {q} {r} l b h) = go (Linked-mono grow l) b (grow r h)

abbrev pub cell : ℕ → ℕ → Position
cell x y = record { x = pos x; y = pos y }

module _ (region : Position → Bool) where
  -- A run of open cells in one row links its ends; so does one in a column.
  Linked-east :
      (n x y : ℕ)
      → ((i : ℕ) → i ≤ n → region (cell (x + i) y) ≡ true)
      → Linked region (cell x y) (cell (x + n) y)
  unfolding Beside
  Linked-east zero x y h =
      subst (λ k. Linked region (cell x y) (cell k y)) (omega arith)
        (stay (subst (λ k. region (cell k y) ≡ true) (omega arith) (h 0 (omega arith))))
  Linked-east (suc n) x y h =
      go (Linked-east n x y (λ i le. h i (omega arith))) (ground arith) (h (suc n) (omega arith))

  Linked-south :
      (n x y : ℕ)
      → ((i : ℕ) → i ≤ n → region (cell x (y + i)) ≡ true)
      → Linked region (cell x y) (cell x (y + n))
  unfolding Beside
  Linked-south zero x y h =
      subst (λ k. Linked region (cell x y) (cell x k)) (omega arith)
        (stay (subst (λ k. region (cell x k) ≡ true) (omega arith) (h 0 (omega arith))))
  Linked-south (suc n) x y h =
      go (Linked-south n x y (λ i le. h i (omega arith))) (ground arith) (h (suc n) (omega arith))

  -- The same between any two columns `a` and `b`, in either order, in the range `lo .. hi`.
  pub Linked-row :
      (lo hi a b y : ℕ)
      → ((i : ℕ) → lo ≤ i → i ≤ hi → region (cell i y) ≡ true)
      → lo ≤ a
      → a ≤ hi
      → lo ≤ b
      → b ≤ hi
      → Linked region (cell a y) (cell b y)
  Linked-row lo hi a b y h la ah lb bh = elim (le_total a b) [
    | inl le ↦
        subst (λ k. Linked region (cell a y) (cell k y)) (omega arith)
          (Linked-east (b - a) a y (λ i j. h (a + i) (omega arith) (omega arith)))
    | inr le ↦ Linked-sym (
        subst (λ k. Linked region (cell b y) (cell k y)) (omega arith)
          (Linked-east (a - b) b y (λ i j. h (b + i) (omega arith) (omega arith))))
  ]
    where
      le_total : (m n : ℕ) → (m ≤ n) ⊎ (n ≤ m)
      le_total m n = grind arith

  pub Linked-column :
      (lo hi a b x : ℕ)
      → ((i : ℕ) → lo ≤ i → i ≤ hi → region (cell x i) ≡ true)
      → lo ≤ a
      → a ≤ hi
      → lo ≤ b
      → b ≤ hi
      → Linked region (cell x a) (cell x b)
  Linked-column lo hi a b x h la ah lb bh = elim (le_total a b) [
    | inl le ↦
        subst (λ k. Linked region (cell x a) (cell x k)) (omega arith)
          (Linked-south (b - a) x a (λ i j. h (a + i) (omega arith) (omega arith)))
    | inr le ↦ Linked-sym (
        subst (λ k. Linked region (cell x b) (cell x k)) (omega arith)
          (Linked-south (a - b) x b (λ i j. h (b + i) (omega arith) (omega arith))))
  ]
    where
      le_total : (m n : ℕ) → (m ≤ n) ⊎ (n ≤ m)
      le_total m n = grind arith
