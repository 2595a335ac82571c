-- ===== src/Roll/Cases.antt =====
-- master/internal/server/client_roll.go: the ways through revealDie.
use layforge.Prelude.{
  ◌≡◌, refl, String, Bool, true, false, Option, none, some, [], ◌∷◌, if◌then◌else◌, ◌==◌, ℤ,
}
use layforge.Roll.{
  others_reveal, asker_error, already_revealed, no_such_die, PendingRoll, send, has, result_of,
  remaining, finish_roll, reveal_die,
}

-- The roll after a die is revealed, before the last one finishes it.
abbrev pub next : String → ℤ → PendingRoll → PendingRoll
next id n r = send (others_reveal id n ∷ []) (record r { revealed = id ∷ r.revealed })

pub if_cases :
    {A : Type 0} (P : A → Type 0) (b : Bool) (x y : A)
    → (b ≡ true → P x)
    → (b ≡ false → P y)
    → P (if b then x else y)
if_cases P true x y f g = f refl
if_cases P false x y f g = g refl

-- The ways through `reveal_die`.
pub reveal_die_cases :
    (P : PendingRoll → Type 0) (id : String) (r : PendingRoll)
    → (has id r.revealed ≡ true → P (send (asker_error already_revealed ∷ []) r))
    → (result_of id r.dice ≡ none → P (send (asker_error no_such_die ∷ []) r))
    → ((n : ℤ)
        → has id r.revealed ≡ false
        → result_of id r.dice ≡ some n
        → P (finish_roll (next id n r)))
    → ((n : ℤ)
        → has id r.revealed ≡ false
        → result_of id r.dice ≡ some n
        → (remaining (id ∷ r.revealed) r.dice == 0) ≡ false
        → P (next id n r))
    → P (reveal_die id r)
unfolding reveal_die send
reveal_die_cases P id r known unknown last more =
    if_cases P (has id r.revealed) (send (asker_error already_revealed ∷ []) r)
      (revealed (result_of id r.dice)) known (λ e. go e (result_of id r.dice) refl)
  where
    found : ℤ → PendingRoll
    found n =
        let r' = send (others_reveal id n ∷ []) (record r { revealed = id ∷ r.revealed }) in
        if remaining r'.revealed r'.dice == 0 then finish_roll r' else r'

    revealed : Option ℤ → PendingRoll
    revealed o = elim o [ none ↦ send (asker_error no_such_die ∷ []) r | some n ↦ found n ]

    go : has id r.revealed ≡ false → (o : Option ℤ) → result_of id r.dice ≡ o → P (revealed o)
    go e none h = unknown h
    go e (some n) h =
        if_cases P (remaining (id ∷ r.revealed) r.dice == 0) (finish_roll (next id n r))
          (next id n r) (λ z. last n e h) (more n e h)
