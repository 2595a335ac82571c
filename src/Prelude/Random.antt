-- ===== src/Prelude/Random.antt =====
-- Go's math/rand, which the repository only calls, as an interface.
use Prim.Native.Nat.{ℕ, suc, ◌%◌, ◌<◌}
use mathlib.Core.Logic.{◌↔◌, inl, inr}
use native.Mathlib.Omega.{arith}
use mathlib.Core.List.{List}
use mathlib.Core.Bool.{Bool, true, false}
use mathlib.Core.Option.{Option, none, some}
use layforge.Prelude.Tests.{◌==◌, Bool-cases, if◌then◌else◌}
use layforge.Prelude.Lists.{◌∈◌}

-- A `*rand.Rand` is a source of random numbers: `Intn(n)` is below `n` for a positive `n`, and
-- `Shuffle` permutes.
pub record Rand : Type 1 where
  pub Source : Type 0
  pub intn : ℕ → Source → ℕ × Source
  pub intn_lt : (n : ℕ) (s : Source) → 0 < n → (intn n s).0 < n
  pub shuffle : {A : Type 0} → List A → Source → List A × Source
  pub mem-shuffle :
      {A : Type 0} (a : A) (xs : List A) (s : Source) → (a ∈ (shuffle xs s).0) ↔ (a ∈ xs)

-- Code that draws random numbers: the source is threaded through, and `none` is a panic.
abbrev pub Draw : Type 0 → Type 0 → Type 0
Draw S A = S → Option (A × S)

module _ {S A B : Type 0} where
  infixl 5 ◌>>=◌
  abbrev pub ◌>>=◌ : Draw S A → (A → Draw S B) → Draw S B
  ◌>>=◌ m f s = elim (m s) [ none ↦ none | some (a, s') ↦ f a s' ]

abbrev pub pure : {S A : Type 0} → A → Draw S A
pure a s = some (a, s)

-- `Intn`, which panics unless its argument is positive.
unfoldable pub draw : (r : Rand) → ℕ → Draw r.Source ℕ
draw r n s = if n == 0 then none else some (r.intn n s)

-- The run draws without a panic, and the result meets `P`.
abbrev pub Draws : {S A : Type 0} → (A → Type 0) → Option (A × S) → Type 0
Draws P none = ⊥
Draws P (some (a, s)) = P a

pub draw-Draws : (r : Rand) (n : ℕ) (s : r.Source) → 0 < n → Draws (λ k. k < n) (draw r n s)
unfolding draw
draw-Draws r n s h = elim (Bool-cases (n == 0)) [
  | inl e ↦ absurd (ground arith)
  | inr e ↦ rw e (r.intn_lt n s h)
]

pub bind-Draws :
    {S A B : Type 0} (P : A → Type 0) (Q : B → Type 0) (m : Draw S A) (f : A → Draw S B) (s : S)
    → Draws P (m s)
    → ((a : A) (s' : S) → P a → Draws Q (f a s'))
    → Draws Q ((m >>= f) s)
bind-Draws {S} {A} P Q m f s h k = go (m s) h
  where
    go : (o : Option (A × S)) → Draws P o → Draws Q (elim o [ none ↦ none | some (a, s') ↦ f a s' ])
    go none h = absurd h
    go (some (a, s')) h = k a s' h

pub draw-then :
    {B : Type 0} (r : Rand) (n : ℕ) (Q : B → Type 0) (f : ℕ → Draw r.Source B) (s : r.Source)
    → 0 < n
    → ((k : ℕ) (s' : r.Source) → k < n → Draws Q (f k s'))
    → Draws Q ((draw r n >>= f) s)
draw-then r n Q f s h k = bind-Draws (λ k. k < n) Q (draw r n) f s (draw-Draws r n s h) k

pub if-Draws :
    {S A : Type 0} (b : Bool) (m n : Draw S A) (s : S) (Q : A → Type 0)
    → Draws Q (m s)
    → Draws Q (n s)
    → Draws Q ((if b then m else n) s)
if-Draws true m n s Q h k = h
if-Draws false m n s Q h k = k

pub Draws-weaken :
    {S A : Type 0} (P Q : A → Type 0) (o : Option (A × S))
    → ((a : A) → P a → Q a)
    → Draws P o
    → Draws Q o
Draws-weaken P Q none f h = h
Draws-weaken P Q (some (a, s)) f h = f a h

pub counting_lt : (n s : ℕ) → 0 < n → s % n < n
counting_lt n s h = grind arith

-- A source that counts up and never shuffles meets the interface.
abbrev pub counting : Rand
counting = record {
  Source = ℕ;
  intn = λ n s. (s % n, suc s);
  intn_lt = counting_lt;
  shuffle = λ xs s. (xs, s);
  mem-shuffle = λ a xs s. (λ m. m, λ m. m);
}
