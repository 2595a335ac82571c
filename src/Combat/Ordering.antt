-- ===== src/Combat/Ordering.antt =====
-- master/internal/server/turn_order.go: initiative order.
use layforge.Prelude.{
  ◌≡◌, refl, ◌∙◌, List, [], ◌∷◌, if◌then◌else◌, arith, ℤ, ◌&&◌, leb_ℤ, ◌≤ℤ◌, string_eq,
}
use layforge.Combat.Turns.{Rolled, insert_roll, sort_rolls}

-- Descending totals.
unfoldable pub Descending : List Rolled → Type 0
Descending [] = Unit
Descending (r ∷ []) = Unit
Descending (r ∷ q ∷ rs) = (q.total ≤ℤ r.total) × Descending (q ∷ rs)

-- The rolls of one total, in their order.
unfoldable pub with_total : ℤ → List Rolled → List Rolled
with_total n [] = []
with_total n (r ∷ rs) =
    if leb_ℤ r.total n && leb_ℤ n r.total then r ∷ with_total n rs else with_total n rs

insert_roll-Descending :
    (r : Rolled) (rs : List Rolled) → Descending rs → Descending (insert_roll r rs)
unfolding Descending insert_roll
insert_roll-Descending r [] h = tt
insert_roll-Descending r (q ∷ []) h = ground arith
insert_roll-Descending r (q ∷ p ∷ rs) h = ground (arith, insert_roll-Descending r (p ∷ rs))

with_total-insert_roll :
    (n : ℤ) (r : Rolled) (rs : List Rolled)
    → with_total n (insert_roll r rs) ≡ with_total n (r ∷ rs)
unfolding with_total insert_roll
with_total-insert_roll n r [] = refl
with_total-insert_roll n r (q ∷ rs) = ground (arith, with_total-insert_roll n r rs)

-- Initiative order goes by descending total, and the rolls with equal totals are all there, in the
-- order in which they were made.
pub sort_rolls_lem :
    (rolls : List Rolled)
    → Descending (sort_rolls rolls)
      × ((n : ℤ) → with_total n (sort_rolls rolls) ≡ with_total n rolls)
unfolding sort_rolls with_total Descending
sort_rolls_lem [] = (tt, λ n. refl)
sort_rolls_lem (r ∷ rs) = (
  insert_roll-Descending r (sort_rolls rs) (sort_rolls_lem rs).0,
  λ n. with_total-insert_roll n r (sort_rolls rs) ∙ ground (arith, (sort_rolls_lem rs).1 n),
)
