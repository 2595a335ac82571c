-- ===== src/Dungeon/Sound.antt =====
-- master/internal/dungeon/generator.go: the generator's invariant.
use layforge.Prelude.{
  ℕ, zero, suc, ◌<◌, ◌≡◌, refl, sym, subst, ◌∙◌, inl, inr, true, false, some, List, [], ◌∷◌, ◌++◌,
  Bool-cases, arith, if◌then◌else◌, leb, ◌==◌, ==_iff, length, get_elem?, set, ◌∈◌, length-set, ◌≤◌,
  get_elem?-set_self, get_elem?-set_ne, All, Position, Draw, Draws, pure,
}
use layforge.Region.{Linked, Linked-trans, Linked-mono, Linked-sym}
use layforge.Dungeon.Level.{StairDir, up, down, Stair, Level, walkable, carvable, IsSized}
use layforge.Dungeon.Shape.{Direction}
use layforge.Dungeon.Generator.{
  ExpansionPoint, Generator, on_level, with_level, push, enqueue_on, enqueue,
}
use layforge.Dungeon.Extends.{Extends}

-- A level whose tiles fill its size, and in which any two cells to walk on are linked.
pub record Joined (l : Level) : Type 0 where
  pub sized : IsSized l
  pub linked :
      (p q : Position) → walkable l p ≡ true → walkable l q ≡ true → Linked (walkable l) p q

-- The position can be walked on, on the level of that index.
abbrev pub Standing : List Level → ℕ → Position → Type 0
Standing ls i p = (l : Level) × (get_elem? ls i ≡ some l) × (walkable l p ≡ true)

abbrev pub Rooted : List Level → ExpansionPoint → Type 0
Rooted ls e = Standing ls e.level e.at

extend-Joined :
    (a : Position) (l l' : Level) → Joined l → walkable l a ≡ true → Extends a l l' → Joined l'
extend-Joined a l l' j w e = record {
  sized = e.sized;
  linked = λ p q v u. Linked-trans (Linked-sym (from p v)) (from q u);
}
  where
    from : (p : Position) → walkable l' p ≡ true → Linked (walkable l') a p
    from p v = elim (e.links p v) [
      | inl u ↦ Linked-mono e.grows (j.linked a p w u)
      | inr (c, m) ↦ m
    ]

pub All-append :
    (P : ExpansionPoint → Type 0) (xs : List ExpansionPoint) (e : ExpansionPoint)
    → All P xs
    → P e
    → All P (xs ++ e ∷ [])
All-append P [] e h p = (p, tt)
All-append P (x ∷ xs) e h p = (h.0, All-append P xs e h.1 p)

pub All-map :
    (P Q : ExpansionPoint → Type 0) (xs : List ExpansionPoint)
    → ((e : ExpansionPoint) → P e → Q e)
    → All P xs
    → All Q xs
All-map P Q [] f h = tt
All-map P Q (x ∷ xs) f h = (f x h.0, All-map P Q xs f h.1)

pub get_elem?-some : (ls : List Level) (i : ℕ) (l : Level) → get_elem? ls i ≡ some l → i < length ls
get_elem?-some [] i l h = absurd (ground arith)
get_elem?-some (x ∷ xs) zero l h = omega arith
get_elem?-some (x ∷ xs) (suc i) l h = ground (arith, get_elem?-some xs i l h)

pub get_elem?-set :
    (ls : List Level) (i j : ℕ) (l l' : Level)
    → get_elem? ls i ≡ some l
    → get_elem? (set ls i l') j ≡ (if i == j then some l' else get_elem? ls j)
get_elem?-set ls i j l l' h = elim (Bool-cases (i == j)) [
  | inl e ↦
      rw (sym ((==_iff i j).0 e))
        (get_elem?-set_self ls i l' (get_elem?-some ls i l h) ∙ ground (arith, ==_iff i i))
  | inr e ↦ rw e (get_elem?-set_ne ls i j l' (λ q. ground (arith, ==_iff i j)))
]

pub set-Standing :
    (ls : List Level) (i j : ℕ) (l l' : Level) (p : Position)
    → get_elem? ls i ≡ some l
    → ((q : Position) → walkable l q ≡ true → walkable l' q ≡ true)
    → Standing ls j p
    → Standing (set ls i l') j p
set-Standing ls i j l l' p h g (m, e, w) = elim (Bool-cases (i == j)) [
  | inl c ↦ (l', get_elem?-set ls i j l l' h ∙ ground arith, g p (ground (arith, ==_iff i j)))
  | inr c ↦ (m, get_elem?-set ls i j l l' h ∙ ground arith, w)
]

pub with_level_self :
    (i : ℕ) (l l' : Level) (g : Generator)
    → get_elem? g.levels i ≡ some l
    → get_elem? (with_level i l' g).levels i ≡ some l'
unfolding with_level
with_level_self i l l' g h = get_elem?-set_self g.levels i l' (get_elem?-some g.levels i l h)

pub on_level-Draws :
    {S A : Type 0} (Q : A → Type 0) (i : ℕ) (g : Generator) (l : Level) (k : Level → Draw S A)
    (s : S)
    → get_elem? g.levels i ≡ some l
    → Draws Q (k l s)
    → Draws Q (on_level i g k s)
unfolding on_level
on_level-Draws Q i g l k s h d = rw (on_level, h) d

-- Stairs lead both ways.
abbrev pub Opposite : StairDir → StairDir → Type 0
Opposite up down = Unit
Opposite down up = Unit
Opposite _ _ = ⊥

-- The stair of level `i` leads to a level that has a stair of the other direction back to `i`.
abbrev pub Matched : List Level → ℕ → Stair → Type 0
Matched ls i st =
    (m : Level) × (get_elem? ls st.to_level ≡ some m)
    × (t : Stair) × (t ∈ m.stairs)
    × (t.to_level ≡ i)
    × Opposite st.dir t.dir

pub set-Matched :
    (ls : List Level) (i j : ℕ) (l l' : Level) (st : Stair)
    → get_elem? ls i ≡ some l
    → ((t : Stair) → t ∈ l.stairs → t ∈ l'.stairs)
    → Matched ls j st
    → Matched (set ls i l') j st
set-Matched ls i j l l' st h k (m, g, t, n, b, o) = elim (Bool-cases (i == st.to_level)) [
  | inl c ↦ (
    l',
    get_elem?-set ls i st.to_level l l' h ∙ ground arith,
    t,
    k t (subst (λ z. t ∈ z.stairs) (same m g c) n),
    b,
    o,
  )
  | inr c ↦ (m, get_elem?-set ls i st.to_level l l' h ∙ ground arith, t, n, b, o)
]
  where
    same : (m : Level) → get_elem? ls st.to_level ≡ some m → (i == st.to_level) ≡ true → m ≡ l
    same m g c = ground (arith, ==_iff i st.to_level)

module _ (max_levels : ℕ) (entrance : Position) where
  -- Every level is joined, and every expansion point and stair stands on a cell to walk on, as does
  -- the entrance; stairs are in matching pairs; every level but the first has stairs up; and there
  -- are not too many levels.
  pub record Sound (g : Generator) : Type 0 where
    pub joined : (i : ℕ) (l : Level) → get_elem? g.levels i ≡ some l → Joined l
    pub rooted : All (Rooted g.levels) g.frontier
    pub entered : Standing g.levels 0 entrance
    pub anchored :
        (i : ℕ) (l : Level) (st : Stair)
        → get_elem? g.levels i ≡ some l
        → st ∈ l.stairs
        → walkable l st.at ≡ true
    pub paired :
        (i : ℕ) (l : Level) (st : Stair)
        → get_elem? g.levels i ≡ some l
        → st ∈ l.stairs
        → Matched g.levels i st
    pub arrived :
        (i : ℕ) (l : Level)
        → get_elem? g.levels (suc i) ≡ some l
        → (st : Stair) × (st ∈ l.stairs) × (st.dir ≡ up)
    pub capped : length g.levels ≤ max_levels

  pub with_level-Sound :
      (i : ℕ) (a : Position) (l l' : Level) (g : Generator)
      → Sound g
      → get_elem? g.levels i ≡ some l
      → walkable l a ≡ true
      → Extends a l l'
      → Sound (with_level i l' g)
  unfolding with_level
  with_level-Sound i a l l' g s h w e = record {
    joined = λ j m q. elim (Bool-cases (i == j)) [
      | inl c ↦ subst Joined (new j m q c) (extend-Joined a l l' (s.joined i l h) w e)
      | inr c ↦ s.joined j m (old j m q c)
    ];
    rooted =
        All-map (Rooted g.levels) (Rooted (set g.levels i l')) g.frontier
          (λ x r. set-Standing g.levels i x.level l l' x.at h e.grows r) s.rooted;
    entered = set-Standing g.levels i 0 l l' entrance h e.grows s.entered;
    anchored = λ j m st q n. elim (Bool-cases (i == j)) [
      | inl c ↦
          subst (λ z. walkable z st.at ≡ true) (new j m q c)
            (e.grows st.at (
              s.anchored i l st h
                (subst (λ z. st ∈ z) e.stairs (subst (λ z. st ∈ z.stairs) (sym (new j m q c)) n))))
      | inr c ↦ s.anchored j m st (old j m q c) n
    ];
    paired = λ j m st q n.
        set-Matched g.levels i j l l' st h (λ t n'. subst (λ z. t ∈ z) (sym e.stairs) n')
          (elim (Bool-cases (i == j)) [
            | inl c ↦
                subst (λ z. Matched g.levels z st) ((==_iff i j).0 c)
                  (s.paired i l st h (
                    subst (λ z. st ∈ z) e.stairs
                      (subst (λ z. st ∈ z.stairs) (sym (new j m q c)) n)))
            | inr c ↦ s.paired j m st (old j m q c) n
          ]);
    arrived = λ j m q. elim (Bool-cases (i == suc j)) [
      | inl c ↦
          let (st, n, u) = s.arrived j l (h' j c) in
          (
            st,
            subst (λ z. st ∈ z.stairs) (new (suc j) m q c) (subst (λ z. st ∈ z) (sym e.stairs) n),
            u,
          )
      | inr c ↦ s.arrived j m (old (suc j) m q c)
    ];
    capped = omega (arith, s.capped, length-set g.levels i l');
  }
    where
      h' : (j : ℕ) → (i == suc j) ≡ true → get_elem? g.levels (suc j) ≡ some l
      h' j c = subst (λ z. get_elem? g.levels z ≡ some l) ((==_iff i (suc j)).0 c) h

      new :
          (j : ℕ) (m : Level) → get_elem? (set g.levels i l') j ≡ some m → (i == j) ≡ true → l' ≡ m
      new j m q c = ground (arith, get_elem?-set g.levels i j l l' h)

      old :
          (j : ℕ) (m : Level)
          → get_elem? (set g.levels i l') j ≡ some m
          → (i == j) ≡ false
          → get_elem? g.levels j ≡ some m
      old j m q c = ground (arith, get_elem?-set g.levels i j l l' h)

  -- The generator is sound, and has these levels.
  abbrev pub SoundWith : List Level → Generator → Type 0
  SoundWith ls g = Sound g × (g.levels ≡ ls)

  pub push-Sound :
      (x : ExpansionPoint) (g : Generator)
      → Sound g
      → Rooted g.levels x
      → SoundWith g.levels (push x g)
  unfolding push
  push-Sound x g s r = (
    record {
      joined = s.joined;
      rooted = All-append (Rooted g.levels) g.frontier x s.rooted r;
      entered = s.entered;
      anchored = s.anchored;
      paired = s.paired;
      arrived = s.arrived;
      capped = s.capped;
    },
    refl,
  )

  pub enqueue_on-Sound :
      (l : Level) (i : ℕ) (p : Position) (d : Direction) (g : Generator)
      → Sound g
      → get_elem? g.levels i ≡ some l
      → walkable l p ≡ true
      → SoundWith g.levels (enqueue_on l i p d g)
  unfolding enqueue_on
  enqueue_on-Sound l i p d g s h w = elim (Bool-cases (leb 360 (length g.frontier))) [
    | inl e ↦ rw e (s, refl)
    | inr e ↦ elim (Bool-cases (carvable l p)) [
      | inr c ↦ rw (e, c) (s, refl)
      | inl c ↦ rw (e, c) (push-Sound (record { level = i; at = p; dir = d }) g s (l, h, w))
    ]
  ]

  -- An expansion point at a cell to walk on.
  pub enqueue-Draws :
      {S : Type 0} (ls : List Level) (i : ℕ) (p : Position) (d : Direction) (g : Generator) (s : S)
      → SoundWith ls g
      → Standing ls i p
      → Draws (SoundWith ls) (enqueue i p d g s)
  unfolding enqueue
  enqueue-Draws ls i p d g s (f, e) (l, h, w) =
      on_level-Draws (SoundWith ls) i g l (λ m. pure (enqueue_on m i p d g)) s (ground arith)
        (let (a, b) = enqueue_on-Sound l i p d g f (ground arith) w in (a, b ∙ e))

  -- An expansion point that leaves the frontier.
  pub pop-Sound :
      (x : ExpansionPoint) (rest : List ExpansionPoint) (g : Generator)
      → Sound g
      → g.frontier ≡ x ∷ rest
      → Rooted g.levels x × Sound (record g { frontier = rest })
  pop-Sound x rest g s e =
      let r : All (Rooted g.levels) (x ∷ rest) = subst (All (Rooted g.levels)) e s.rooted in
      (
        r.0,
        record {
          joined = s.joined;
          rooted = r.1;
          entered = s.entered;
          anchored = s.anchored;
          paired = s.paired;
          arrived = s.arrived;
          capped = s.capped;
        },
      )
