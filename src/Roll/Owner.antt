-- ===== src/Roll/Owner.antt =====
-- master/internal/server/client_roll.go: the owner's reveals complete a roll without its timer.
use layforge.Prelude.{
  map, ◌≡◌, refl, ap, sym, subst, ◌∙◌, inl, inr, String, str_eq, str_eq_iff, true, false, not, ◌||◌,
  Bool-cases, arith, some, List, [], ◌∷◌, ℤ, ◌∈◌,
}
use layforge.Roll.{
  ask_owner, handle_early, Request, without_result, others_spectate, Die, asker_error, Complaint,
  already_revealed, no_such_die, ids_required, not_waiting, not_yours, PendingRoll, send,
  send_client_roll, has, result_of, remaining, finish_roll, reveal_die, handle_reveal, Event,
  request, wait_over, overtaken, step, run,
}
use layforge.Roll.Counts.{ends_of, remaining-none, has_head, self_reveal-keeps}
use layforge.Roll.Reveal.{
  IsTracked, finish_roll-completed, step-IsTracked, sent-IsTracked, run-IsTracked,
}
use layforge.Roll.Cases.{next, if_cases, reveal_die_cases}

-- What no event changes or takes back, `closing` being that a roll without hidden dice is completed.
record Follows (r r' : PendingRoll) : Type 0 where
  same_prompt : r'.prompt_id ≡ r.prompt_id
  same_owner : r'.owner_sender ≡ r.owner_sender
  same_dice : r'.dice ≡ r.dice
  grown : (id : String) → has id r.revealed ≡ true → has id r'.revealed ≡ true
  closing :
      (remaining r.revealed r.dice ≡ 0 → r.completed ≡ true)
      → remaining r'.revealed r'.dice ≡ 0
      → r'.completed ≡ true

complain-Follows : (c : Complaint) (r : PendingRoll) → Follows r (send (asker_error c ∷ []) r)
unfolding send
complain-Follows c r = record {
  same_prompt = refl;
  same_owner = refl;
  same_dice = refl;
  grown = λ id h. h;
  closing = λ f. f;
}

finish_roll-Follows : (r : PendingRoll) → Follows r (finish_roll r)
unfolding finish_roll send
finish_roll-Follows r =
    if_cases (Follows r) r.completed r _
      (λ e. record {
        same_prompt = refl;
        same_owner = refl;
        same_dice = refl;
        grown = λ id h. h;
        closing = λ f. f;
      })
      (λ e. record {
        same_prompt = refl;
        same_owner = refl;
        same_dice = refl;
        grown = λ id h. self_reveal-keeps r.dice r.revealed id h;
        closing = λ f z. refl;
      })

next-grown :
    (id : String) (r : PendingRoll) (x : String)
    → has x r.revealed ≡ true
    → has x (id ∷ r.revealed) ≡ true
unfolding has
next-grown id r x h = ground arith

reveal_die-Follows : (id : String) (r : PendingRoll) → Follows r (reveal_die id r)
unfolding send
reveal_die-Follows id r =
    reveal_die_cases (Follows r) id r (λ e. complain-Follows already_revealed r)
      (λ e. complain-Follows no_such_die r)
      (λ n u v. record {
        same_prompt = (f n).same_prompt;
        same_owner = (f n).same_owner;
        same_dice = (f n).same_dice;
        grown = λ x h. (f n).grown x (next-grown id r x h);
        closing = λ g z. finish_roll-completed (next id n r);
      })
      (λ n u v e. record {
        same_prompt = refl;
        same_owner = refl;
        same_dice = refl;
        grown = next-grown id r;
        closing = λ g z. absurd (ground arith);
      })
  where
    f : (n : ℤ) → Follows (next id n r) (finish_roll (next id n r))
    f n = finish_roll-Follows (next id n r)

handle_reveal-Follows :
    (sender prompt id : String) (r : PendingRoll) → Follows r (handle_reveal sender prompt id r)
unfolding handle_reveal
handle_reveal-Follows sender prompt id r =
    if_cases (Follows r) (str_eq prompt "" || str_eq id "") _ _
      (λ e. complain-Follows ids_required r)
      (λ e.
        if_cases (Follows r) (not r.is_registered || not (str_eq prompt r.prompt_id)) _ _
          (λ e. complain-Follows not_waiting r)
          (λ e.
            if_cases (Follows r) (not (str_eq r.owner_sender sender)) _ (reveal_die id r)
              (λ e. complain-Follows not_yours r) (λ e. reveal_die-Follows id r)))

step-Follows : (e : Event) (r : PendingRoll) → Follows r (step e r)
unfolding step
step-Follows (request sender prompt id) r = handle_reveal-Follows sender prompt id r
step-Follows wait_over r = finish_roll-Follows r
step-Follows (overtaken id) r = reveal_die-Follows id r

run-grown :
    (es : List Event) (r : PendingRoll) (id : String)
    → has id r.revealed ≡ true
    → has id (run es r).revealed ≡ true
unfolding run
run-grown [] r id h = h
run-grown (e ∷ es) r id h = run-grown es (step e r) id ((step-Follows e r).grown id h)

run-same_dice : (es : List Event) (r : PendingRoll) → (run es r).dice ≡ r.dice
unfolding run
run-same_dice [] r = refl
run-same_dice (e ∷ es) r = run-same_dice es (step e r) ∙ (step-Follows e r).same_dice

run-closing :
    (es : List Event) (r : PendingRoll)
    → (remaining r.revealed r.dice ≡ 0 → r.completed ≡ true)
    → remaining (run es r).revealed (run es r).dice ≡ 0
    → (run es r).completed ≡ true
unfolding run
run-closing [] r f = f
run-closing (e ∷ es) r f = run-closing es (step e r) ((step-Follows e r).closing f)

-- A die in the roll is revealed once it is asked for.
reveal_die-shown :
    (id : String) (n : ℤ) (r : PendingRoll)
    → result_of id r.dice ≡ some n
    → has id (reveal_die id r).revealed ≡ true
unfolding send
reveal_die-shown id n r h =
    reveal_die_cases (λ z. has id z.revealed ≡ true) id r (λ e. e) (λ e. absurd (ground arith))
      (λ m u v. (finish_roll-Follows (next id m r)).grown id (has_head id r.revealed))
      (λ m u v e. has_head id r.revealed)

-- A request of the owner for the roll under way is served.
handle_reveal-served :
    (sender prompt id : String) (r : PendingRoll)
    → (str_eq prompt "" || str_eq id "") ≡ false
    → (not r.is_registered || not (str_eq prompt r.prompt_id)) ≡ false
    → not (str_eq r.owner_sender sender) ≡ false
    → handle_reveal sender prompt id r ≡ reveal_die id r
unfolding handle_reveal
handle_reveal-served sender prompt id r a b c = rw (a, b, c) refl

request-shown :
    (sender prompt id : String) (n : ℤ) (r : PendingRoll)
    → IsTracked r
    → str_eq prompt "" ≡ false
    → str_eq id "" ≡ false
    → r.prompt_id ≡ prompt
    → r.owner_sender ≡ sender
    → result_of id r.dice ≡ some n
    → has id (handle_reveal sender prompt id r).revealed ≡ true
request-shown sender prompt id n r t p i e o h = elim (Bool-cases r.completed) [
  | inl c ↦
      (handle_reveal-Follows sender prompt id r).grown id
        (remaining-none id r.dice r.revealed n h (t.bare c))
  | inr c ↦
      subst (λ z. has id z.revealed ≡ true)
        (sym (
          handle_reveal-served sender prompt id r (ground arith)
            (ground (arith, t.registered, str_eq_iff prompt r.prompt_id))
            (ground (arith, str_eq_iff r.owner_sender sender))))
        (reveal_die-shown id n r h)
]

run-shown :
    (sender prompt id : String) (n : ℤ) (es : List Event) (r : PendingRoll)
    → IsTracked r
    → str_eq prompt "" ≡ false
    → str_eq id "" ≡ false
    → r.prompt_id ≡ prompt
    → r.owner_sender ≡ sender
    → result_of id r.dice ≡ some n
    → request sender prompt id ∈ es
    → has id (run es r).revealed ≡ true
unfolding run step
run-shown sender prompt id n [] r t p i e o h m = absurd m
run-shown sender prompt id n (x ∷ es) r t p i e o h (inl q) = run-grown es (step x r) id (
    subst (λ z. has id (step z r).revealed ≡ true) q
      (request-shown sender prompt id n r t p i e o h))
run-shown sender prompt id n (x ∷ es) r t p i e o h (inr m) =
    run-shown sender prompt id n es (step x r) (step-IsTracked x r t) p i
      ((step-Follows x r).same_prompt ∙ e) ((step-Follows x r).same_owner ∙ o)
      (subst (λ z. result_of id z ≡ some n) (sym (step-Follows x r).same_dice) h) m

result_of_total : (d : Die) (ds : List Die) → d ∈ ds → (n : ℤ) × (result_of d.id ds ≡ some n)
unfolding result_of
result_of_total d [] m = absurd m
result_of_total d (x ∷ xs) m = elim (Bool-cases (str_eq x.id d.id)) [
  | inl e ↦ (x.result, rw e refl)
  | inr e ↦ elim m [
    | inl q ↦ absurd (ground (arith, str_eq_iff x.id d.id, ap (λ z. Die.id z) q))
    | inr k ↦ (let (n, h) = result_of_total d xs k in (n, rw e h))
  ]
]

remaining_all :
    (revealed : List String) (ds : List Die)
    → ((d : Die) → d ∈ ds → has d.id revealed ≡ true)
    → remaining revealed ds ≡ 0
unfolding remaining
remaining_all revealed [] f = refl
remaining_all revealed (d ∷ ds) f =
    rw (f d (inl refl)) (remaining_all revealed ds (λ x m. f x (inr m)))

Follows-trans : (x y z : PendingRoll) → Follows x y → Follows y z → Follows x z
Follows-trans x y z f g = record {
  same_prompt = g.same_prompt ∙ f.same_prompt;
  same_owner = g.same_owner ∙ f.same_owner;
  same_dice = g.same_dice ∙ f.same_dice;
  grown = λ id h. g.grown id (f.grown id h);
  closing = λ h. g.closing (f.closing h);
}

handle_early-Follows : (rs : List Request) (r : PendingRoll) → Follows r (handle_early rs r)
unfolding handle_early
handle_early-Follows [] r = record {
  same_prompt = refl;
  same_owner = refl;
  same_dice = refl;
  grown = λ id h. h;
  closing = λ f. f;
}
handle_early-Follows ((sender, prompt, id) ∷ rs) r =
    Follows-trans r (handle_reveal sender prompt id r) _ (handle_reveal-Follows sender prompt id r)
      (handle_early-Follows rs (handle_reveal sender prompt id r))

send_client_roll-Follows :
    (prompt owner : String) (dice : List Die) (total : ℤ) (summary : String)
    → (early late : List Request)
    → Follows
        (ask_owner prompt owner dice total summary)
        (send_client_roll prompt owner dice total summary early late)
unfolding send_client_roll send
send_client_roll-Follows prompt owner dice total summary early late = record {
  same_prompt = g.same_prompt ∙ f.same_prompt;
  same_owner = g.same_owner ∙ f.same_owner;
  same_dice = g.same_dice ∙ f.same_dice;
  grown = λ id h. g.grown id (f.grown id h);
  closing = λ h. g.closing (f.closing h);
}
  where
    asked : PendingRoll
    asked = handle_early early (ask_owner prompt owner dice total summary)

    told : PendingRoll
    told = send (others_spectate (map without_result dice) ∷ []) asked

    f : Follows (ask_owner prompt owner dice total summary) asked
    f = handle_early-Follows early (ask_owner prompt owner dice total summary)

    g : Follows told (handle_early late told)
    g = handle_early-Follows late told

remaining-fresh : (d : Die) (ds : List Die) → remaining [] (d ∷ ds) ≡ 0 → ⊥
unfolding remaining has
remaining-fresh d ds h = absurd (ground arith)

-- In any events after the roll is registered that have, for each die of a roll with at least one die,
-- a request of its owner with the roll's prompt id and that die, the prompt id and the dice's ids not
-- being empty, the roll is completed, its caller released, and everybody told of the end exactly once.
-- Requests before the roll is registered, which are turned away, change nothing of this.
pub run-completed :
    (prompt owner : String) (d : Die) (ds : List Die) (total : ℤ) (summary : String)
    → (early late : List Request) (es : List Event) → str_eq prompt "" ≡ false
    → ((x : Die) → x ∈ d ∷ ds → str_eq x.id "" ≡ false)
    → ((x : Die) → x ∈ d ∷ ds → request owner prompt x.id ∈ es)
    → let r = run es (send_client_roll prompt owner (d ∷ ds) total summary early late) in
      (r.completed ≡ true) × (r.is_done ≡ true) × (ends_of r.sent ≡ 1)
unfolding ask_owner
run-completed prompt owner d ds total summary early late es p i asked =
    (done, t.released ∙ done, t.ended ∙ rw done refl)
  where
    start : PendingRoll
    start = send_client_roll prompt owner (d ∷ ds) total summary early late

    sent : Follows (ask_owner prompt owner (d ∷ ds) total summary) start
    sent = send_client_roll-Follows prompt owner (d ∷ ds) total summary early late

    t : IsTracked (run es start)
    t = run-IsTracked prompt owner (d ∷ ds) total summary early late es

    shown : (x : Die) → x ∈ d ∷ ds → has x.id (run es start).revealed ≡ true
    shown x m =
        let (n, h) = result_of_total x (d ∷ ds) m in
        run-shown owner prompt x.id n es start
          (sent-IsTracked prompt owner (d ∷ ds) total summary early late) p (i x m) sent.same_prompt
          sent.same_owner (subst (λ z. result_of x.id z ≡ some n) (sym sent.same_dice) h)
          (asked x m)

    bare : remaining (run es start).revealed (run es start).dice ≡ 0
    bare =
        subst (λ z. remaining (run es start).revealed z ≡ 0)
          (sym (run-same_dice es start ∙ sent.same_dice))
          (remaining_all (run es start).revealed (d ∷ ds) shown)

    done : (run es start).completed ≡ true
    done = run-closing es start (sent.closing (λ z. absurd (remaining-fresh d ds z))) bare
