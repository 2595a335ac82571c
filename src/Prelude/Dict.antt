-- ===== src/Prelude/Dict.antt =====
-- Go maps as association lists over keys with a Boolean equality. What is proved of a map never
-- depends on the order of the list, as Go's iteration order is unspecified.
use Prim.Native.Nat.{ℕ, suc, ◌≤◌}
use Prim.Native.String.{String}
use mathlib.Core.Path.{◌≡◌, refl}
use mathlib.Core.Logic.{◌≢◌, ◌↔◌}
use mathlib.Core.Bool.{Bool, true}
use mathlib.Core.List.{List, [], ◌∷◌}
use mathlib.Core.Option.{Option, none, some}
use native.Mathlib.Omega.{arith}
use text.Mathlib.Text.{◌==◌ as str_eq}
use text.Mathlib.TextEquality.{eq_iff}
use layforge.Prelude.Tests.{if◌then◌else◌, ◌==◌, ==_iff}
use layforge.Prelude.Lists.{length, ◌∈◌}
use layforge.Prelude.Cells.{Position, pos_eq, pos_eq_iff}

-- Go's `==` on a comparable type.
pub record Eq (A : Type 0) : Type 0 where
  pub beq : A → A → Bool
  pub beq_iff : (a b : A) → (beq a b ≡ true) ↔ (a ≡ b)

instance abbrev pub ℕ_eq : Eq ℕ
ℕ_eq = record { beq = ◌==◌; beq_iff = ==_iff }

instance abbrev pub string_eq : Eq String
string_eq = record { beq = str_eq; beq_iff = eq_iff }

instance abbrev pub position_eq : Eq Position
position_eq = record { beq = pos_eq; beq_iff = pos_eq_iff }

-- What a filtered map holds under a key.
abbrev pub when {ℓ} : {V : Type ℓ} → (V → Bool) → Option V → Option V
when p none = none
when p (some v) = if p v then some v else none

module _ {K V : Type 0} ⦃e : Eq K⦄ where
  -- `v, ok := m[k]`
  unfoldable pub lookup : K → List (K × V) → Option V
  lookup k [] = none
  lookup k ((j, v) ∷ m) = if e.beq j k then some v else lookup k m

  -- `m[k] = v`
  unfoldable pub insert : K → V → List (K × V) → List (K × V)
  insert k v [] = (k, v) ∷ []
  insert k v ((j, u) ∷ m) = if e.beq j k then (k, v) ∷ m else (j, u) ∷ insert k v m

  -- `delete(m, k)`
  unfoldable pub delete : K → List (K × V) → List (K × V)
  delete k [] = []
  delete k ((j, v) ∷ m) = if e.beq j k then delete k m else (j, v) ∷ delete k m

  -- The entries that a loop with `delete` keeps.
  unfoldable pub keep_if : (V → Bool) → List (K × V) → List (K × V)
  keep_if p [] = []
  keep_if p ((j, v) ∷ m) = if p v then (j, v) ∷ keep_if p m else keep_if p m

  pub lookup-insert :
      (k j : K) (v : V) (m : List (K × V))
      → lookup j (insert k v m) ≡ (if e.beq k j then some v else lookup j m)
  unfolding lookup insert
  lookup-insert k j v [] = refl
  lookup-insert k j v ((i, w) ∷ m) =
      ground (arith, e.beq_iff k j, e.beq_iff i k, e.beq_iff i j, lookup-insert k j v m)

  pub lookup-delete :
      (k j : K) (m : List (K × V))
      → lookup j (delete k m) ≡ (if e.beq k j then none else lookup j m)
  unfolding lookup delete
  lookup-delete k j [] = ground arith
  lookup-delete k j ((i, w) ∷ m) =
      ground (arith, e.beq_iff k j, e.beq_iff i k, e.beq_iff i j, lookup-delete k j m)

  -- Each key has one entry.
  unfoldable pub IsMap : List (K × V) → Type 0
  IsMap [] = Unit
  IsMap ((j, v) ∷ m) = (lookup j m ≡ none) × IsMap m

  pub insert-IsMap : (k : K) (v : V) (m : List (K × V)) → IsMap m → IsMap (insert k v m)
  unfolding insert lookup IsMap
  insert-IsMap k v [] h = (refl, tt)
  insert-IsMap k v ((j, u) ∷ m) h =
      ground (arith, e.beq_iff j k, e.beq_iff k j, lookup-insert k j v m, insert-IsMap k v m h.1)

  pub delete-IsMap : (k : K) (m : List (K × V)) → IsMap m → IsMap (delete k m)
  unfolding delete lookup IsMap
  delete-IsMap k [] h = tt
  delete-IsMap k ((j, u) ∷ m) h =
      ground (arith, e.beq_iff k j, lookup-delete k j m, delete-IsMap k m h.1)

  lookup-keep_if-none :
      (p : V → Bool) (k : K) (m : List (K × V)) → lookup k m ≡ none → lookup k (keep_if p m) ≡ none
  unfolding lookup keep_if
  lookup-keep_if-none p k [] h = refl
  lookup-keep_if-none p k ((j, v) ∷ m) h = ground (arith, lookup-keep_if-none p k m)

  pub keep_if-IsMap : (p : V → Bool) (m : List (K × V)) → IsMap m → IsMap (keep_if p m)
  unfolding keep_if IsMap
  keep_if-IsMap p [] h = tt
  keep_if-IsMap p ((j, u) ∷ m) h =
      ground (arith, lookup-keep_if-none p j m h.0, keep_if-IsMap p m h.1)

  pub lookup-keep_if :
      (p : V → Bool) (k : K) (m : List (K × V))
      → IsMap m
      → lookup k (keep_if p m) ≡ when p (lookup k m)
  unfolding lookup keep_if IsMap
  lookup-keep_if p k [] h = refl
  lookup-keep_if p k ((j, v) ∷ m) h =
      ground (arith, e.beq_iff j k, lookup-keep_if p k m h.1, lookup-keep_if-none p j m h.0)

  -- A key of the map takes no new room.
  pub length-insert :
      (k : K) (v : V) (m : List (K × V))
      → length (insert k v m) ≡ elim (lookup k m) [ none ↦ suc (length m) | some _ ↦ length m ]
  unfolding insert lookup
  length-insert k v [] = refl
  length-insert k v ((j, u) ∷ m) = ground (arith, length-insert k v m)

  pub length-delete-le : (k : K) (m : List (K × V)) → length (delete k m) ≤ length m
  unfolding delete
  length-delete-le k [] = omega arith
  length-delete-le k ((j, u) ∷ m) = ground (arith, length-delete-le k m)

  pub length-keep_if-le : (p : V → Bool) (m : List (K × V)) → length (keep_if p m) ≤ length m
  unfolding keep_if
  length-keep_if-le p [] = omega arith
  length-keep_if-le p ((j, u) ∷ m) = ground (arith, length-keep_if-le p m)

  pub mem_of_lookup : (k : K) (v : V) (m : List (K × V)) → lookup k m ≡ some v → (k, v) ∈ m
  unfolding lookup
  mem_of_lookup k v [] h = cc
  mem_of_lookup k v ((j, u) ∷ m) h = ground (arith, e.beq_iff j k, mem_of_lookup k v m)

  lookup_of_mem_ne_none : (k : K) (v : V) (m : List (K × V)) → (k, v) ∈ m → lookup k m ≢ none
  unfolding lookup
  lookup_of_mem_ne_none k v [] h = absurd h
  lookup_of_mem_ne_none k v ((j, u) ∷ m) h =
      ground (arith, e.beq_iff j k, lookup_of_mem_ne_none k v m)

  pub lookup_of_mem :
      (k : K) (v : V) (m : List (K × V)) → IsMap m → (k, v) ∈ m → lookup k m ≡ some v
  unfolding lookup IsMap
  lookup_of_mem k v [] d h = absurd h
  lookup_of_mem k v ((j, u) ∷ m) d h =
      ground (arith, e.beq_iff j k, lookup_of_mem k v m d.1, lookup_of_mem_ne_none k v m)
