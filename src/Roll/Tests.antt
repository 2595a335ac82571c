-- ===== src/Roll/Tests.antt =====
-- A roll of two dice, of which the owner reveals one before the wait ends.
use layforge.Prelude.{◌≡◌, refl, sym, subst, inl, inr, true, false, str_eq, ◌∈◌, List, [], ◌∷◌, pos}
use layforge.Roll.{
  Request, Die, Event, request, wait_over, overtaken, step, run, send_client_roll, remaining,
  death_save, check_purpose,
}
use layforge.Roll.Counts.{ends_of}
use layforge.Roll.Owner.{run-completed}
use layforge.Roll.Reveal.{IsTracked, run-IsTracked, wait_over-completed}

abbrev first_die : Die
first_die = record { id = "a"; sides = pos 20; label = "d20"; result = pos 13 }

abbrev second_die : Die
second_die = record { id = "b"; sides = pos 4; label = "d4"; result = pos 2 }

abbrev dice : List Die
dice = first_die ∷ second_die ∷ []

-- The owner asks before the roll is registered.
abbrev too_early : List Request
too_early = ("ann", "p", "a") ∷ []

abbrev events : List Event
events =
    request "bob" "p" "a"
    ∷ request "ann" "p" "a"
    ∷ request "ann" "p" "a"
    ∷ wait_over
    ∷ overtaken "b"
    ∷ []

purpose : check_purpose "death_save" ≡ death_save
unfolding check_purpose
purpose = refl

run-IsTracked_example :
    IsTracked (run events (send_client_roll "p" "ann" dice (pos 15) "15" too_early []))
run-IsTracked_example = run-IsTracked "p" "ann" dice (pos 15) "15" too_early [] events

wait_over-completed_example :
    let r =
      step wait_over (run events (send_client_roll "p" "ann" dice (pos 15) "15" too_early [])) in
    (r.is_done ≡ true)
    × (ends_of r.sent ≡ 1)
    × (remaining r.revealed r.dice ≡ 0)
    × (step wait_over r ≡ r)
wait_over-completed_example = wait_over-completed "p" "ann" dice (pos 15) "15" too_early [] events

abbrev owner_events : List Event
owner_events =
    request "bob" "p" "b" ∷ request "ann" "p" "b" ∷ overtaken "b" ∷ request "ann" "p" "a" ∷ []

named : (x : Die) → x ∈ dice → str_eq x.id "" ≡ false
named x (inl e) = subst (λ z. str_eq (Die.id z) "" ≡ false) (sym e) refl
named x (inr (inl e)) = subst (λ z. str_eq (Die.id z) "" ≡ false) (sym e) refl
named x (inr (inr m)) = elim m [ ]

asked : (x : Die) → x ∈ dice → request "ann" "p" x.id ∈ owner_events
asked x (inl e) =
    subst (λ z. request "ann" "p" (Die.id z) ∈ owner_events) (sym e) (inr (inr (inr (inl refl))))
asked x (inr (inl e)) =
    subst (λ z. request "ann" "p" (Die.id z) ∈ owner_events) (sym e) (inr (inl refl))
asked x (inr (inr m)) = elim m [ ]

run-completed_example :
    let r = run owner_events (send_client_roll "p" "ann" dice (pos 15) "15" too_early []) in
    (r.completed ≡ true) × (r.is_done ≡ true) × (ends_of r.sent ≡ 1)
run-completed_example =
    run-completed "p" "ann" first_die (second_die ∷ []) (pos 15) "15" too_early [] owner_events refl
      named asked
