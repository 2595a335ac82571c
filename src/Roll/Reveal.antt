-- ===== src/Roll/Reveal.antt =====
-- master/internal/server/client_roll.go: each die is revealed once, and each roll completed once.
use layforge.Prelude.{
  map, ◌≡◌, refl, ◌∙◌, inl, inr, String, str_eq, str_eq_iff, true, false, not, ◌||◌, Bool-cases,
  arith, some, List, [], ◌∷◌, ◌++◌, ℤ,
}
use layforge.Roll.{
  Die, ask_owner, handle_early, Request, without_result, others_spectate, Message, others_reveal,
  all_complete, asker_error, Complaint, already_revealed, no_such_die, ids_required, not_waiting,
  not_yours, PendingRoll, send, send_client_roll, has, result_of, remaining, self_reveal,
  finish_roll, reveal_die, handle_reveal, Event, request, wait_over, overtaken, step, run,
}
use layforge.Roll.Counts.{
  reveals_of, ends_of, reveals_of-append, ends_of-append, once, self_reveal-reveals,
  self_reveal-ends, self_reveal-remaining, remaining-none,
}
use layforge.Roll.Cases.{next, if_cases, reveal_die_cases}

-- Spectators have been told of exactly the revealed dice, once each; of the end exactly if the roll is
-- completed, once; it is registered until then, its waiting caller released then, and no die is left
-- hidden.
pub record IsTracked (r : PendingRoll) : Type 0 where
  pub shown : (id : String) → reveals_of id r.sent ≡ once (has id r.revealed)
  pub ended : ends_of r.sent ≡ once r.completed
  pub released : r.is_done ≡ r.completed
  pub registered : r.is_registered ≡ not r.completed
  pub bare : r.completed ≡ true → remaining r.revealed r.dice ≡ 0

-- A message that tells of no die and of no end changes nothing that is tracked.
quiet-IsTracked :
    (m : Message) (r : PendingRoll)
    → ((id : String) → reveals_of id (m ∷ []) ≡ 0)
    → ends_of (m ∷ []) ≡ 0
    → IsTracked r
    → IsTracked (send (m ∷ []) r)
unfolding send
quiet-IsTracked m r n e t = record {
  shown = λ id. ground (arith, reveals_of-append id r.sent (m ∷ []), t.shown id, n id);
  ended = ground (arith, ends_of-append r.sent (m ∷ []), t.ended);
  released = t.released;
  registered = t.registered;
  bare = t.bare;
}

complain-IsTracked :
    (c : Complaint) (r : PendingRoll) → IsTracked r → IsTracked (send (asker_error c ∷ []) r)
unfolding reveals_of ends_of
complain-IsTracked c r t = quiet-IsTracked (asker_error c) r (λ id. refl) refl t

-- A finished roll, from one whose reveals are tracked.
finish_roll-IsTracked : (r : PendingRoll) → IsTracked r → IsTracked (finish_roll r)
unfolding finish_roll send reveals_of ends_of
finish_roll-IsTracked r t =
    if_cases IsTracked r.completed r _ (λ e. t)
      (λ e. record {
        shown = λ id. ground (
          arith,
          reveals_of-append id r.sent (reveals ++ last ∷ []),
          reveals_of-append id reveals (last ∷ []),
          t.shown id,
          self_reveal-reveals r.dice r.revealed id,
        );
        ended = ground (
          arith,
          ends_of-append r.sent (reveals ++ last ∷ []),
          ends_of-append reveals (last ∷ []),
          t.ended,
          self_reveal-ends r.dice r.revealed,
        );
        released = refl;
        registered = refl;
        bare = λ c. self_reveal-remaining r.dice r.revealed;
      })
  where
    reveals : List Message
    reveals = (self_reveal r.dice r.revealed).1

    last : Message
    last = all_complete r.total r.result_summary

-- One more die revealed.
shown-IsTracked :
    (id : String) (n : ℤ) (r : PendingRoll)
    → IsTracked r
    → has id r.revealed ≡ false
    → r.completed ≡ false
    → IsTracked (send (others_reveal id n ∷ []) (record r { revealed = id ∷ r.revealed }))
unfolding send reveals_of ends_of has
shown-IsTracked id n r t h c = record {
  shown = λ x.
      ground
        (arith, reveals_of-append x r.sent (others_reveal id n ∷ []), t.shown x, str_eq_iff id x);
  ended = ground (arith, ends_of-append r.sent (others_reveal id n ∷ []), t.ended);
  released = t.released;
  registered = t.registered;
  bare = λ e. absurd (ground arith);
}

reveal_die-IsTracked : (id : String) (r : PendingRoll) → IsTracked r → IsTracked (reveal_die id r)
reveal_die-IsTracked id r t =
    reveal_die_cases IsTracked id r (λ e. complain-IsTracked already_revealed r t)
      (λ e. complain-IsTracked no_such_die r t)
      (λ n e h. finish_roll-IsTracked (next id n r) (tracked n e h)) (λ n e h z. tracked n e h)
  where
    open_still :
        (n : ℤ) → has id r.revealed ≡ false → result_of id r.dice ≡ some n → r.completed ≡ false
    open_still n e h = elim (Bool-cases r.completed) [
      | inr c ↦ c
      | inl c ↦ absurd (ground (arith, remaining-none id r.dice r.revealed n h (t.bare c)))
    ]

    tracked :
        (n : ℤ) → has id r.revealed ≡ false → result_of id r.dice ≡ some n → IsTracked (next id n r)
    tracked n e h = shown-IsTracked id n r t e (open_still n e h)

handle_reveal-IsTracked :
    (sender prompt id : String) (r : PendingRoll)
    → IsTracked r
    → IsTracked (handle_reveal sender prompt id r)
unfolding handle_reveal
handle_reveal-IsTracked sender prompt id r t =
    if_cases IsTracked (str_eq prompt "" || str_eq id "") (send (asker_error ids_required ∷ []) r) _
      (λ e. complain-IsTracked ids_required r t)
      (λ e.
        if_cases IsTracked (not r.is_registered || not (str_eq prompt r.prompt_id))
          (send (asker_error not_waiting ∷ []) r) _ (λ e. complain-IsTracked not_waiting r t)
          (λ e.
            if_cases IsTracked (not (str_eq r.owner_sender sender))
              (send (asker_error not_yours ∷ []) r) (reveal_die id r)
              (λ e. complain-IsTracked not_yours r t) (λ e. reveal_die-IsTracked id r t)))

pub step-IsTracked : (e : Event) (r : PendingRoll) → IsTracked r → IsTracked (step e r)
unfolding step
step-IsTracked (request sender prompt id) r t = handle_reveal-IsTracked sender prompt id r t
step-IsTracked wait_over r t = finish_roll-IsTracked r t
step-IsTracked (overtaken id) r t = reveal_die-IsTracked id r t

from_IsTracked : (es : List Event) (r : PendingRoll) → IsTracked r → IsTracked (run es r)
unfolding run
from_IsTracked [] r t = t
from_IsTracked (e ∷ es) r t = from_IsTracked es (step e r) (step-IsTracked e r t)

-- Not registered yet, and tracked once it is.
abbrev Waiting : PendingRoll → Type 0
Waiting r = (r.is_registered ≡ false) × IsTracked (record r { is_registered = true })

-- Every request for a roll that is not registered is turned away.
handle_reveal-Waiting :
    (sender prompt id : String) (r : PendingRoll)
    → Waiting r
    → Waiting (handle_reveal sender prompt id r)
unfolding handle_reveal send
handle_reveal-Waiting sender prompt id r (n, t) =
    if_cases Waiting (str_eq prompt "" || str_eq id "") (send (asker_error ids_required ∷ []) r) _
      (λ e. (n, complain-IsTracked ids_required (record r { is_registered = true }) t))
      (λ e.
        if_cases Waiting (not r.is_registered || not (str_eq prompt r.prompt_id))
          (send (asker_error not_waiting ∷ []) r) _
          (λ e. (n, complain-IsTracked not_waiting (record r { is_registered = true }) t))
          (λ e. absurd (ground arith)))

handle_early-Waiting :
    (rs : List Request) (r : PendingRoll) → Waiting r → Waiting (handle_early rs r)
unfolding handle_early
handle_early-Waiting [] r t = t
handle_early-Waiting ((sender, prompt, id) ∷ rs) r t =
    handle_early-Waiting rs (handle_reveal sender prompt id r)
      (handle_reveal-Waiting sender prompt id r t)

ask_owner-Waiting :
    (prompt owner : String) (dice : List Die) (total : ℤ) (summary : String)
    → Waiting (ask_owner prompt owner dice total summary)
unfolding ask_owner reveals_of ends_of has
ask_owner-Waiting prompt owner dice total summary = (
  refl,
  record {
    shown = λ id. refl;
    ended = refl;
    released = refl;
    registered = refl;
    bare = λ e. absurd (ground arith);
  },
)

pub sent-IsTracked :
    (prompt owner : String) (dice : List Die) (total : ℤ) (summary : String)
    → (early late : List Request)
    → IsTracked (send_client_roll prompt owner dice total summary early late)
unfolding send_client_roll send reveals_of ends_of
sent-IsTracked prompt owner dice total summary early late =
    (handle_early-Waiting late told (
      asked.0,
      quiet-IsTracked (others_spectate (map without_result dice))
          (record (handle_early early (ask_owner prompt owner dice total summary)) {
            is_registered = true;
          })
          (λ id. refl) refl asked.1,
    )).1
  where
    asked : Waiting (handle_early early (ask_owner prompt owner dice total summary))
    asked =
        handle_early-Waiting early (ask_owner prompt owner dice total summary)
          (ask_owner-Waiting prompt owner dice total summary)

    told : PendingRoll
    told =
        send (others_spectate (map without_result dice) ∷ [])
          (handle_early early (ask_owner prompt owner dice total summary))

-- After a roll is sent, with any requests while it is being sent, and after any requests, ends of the wait and overtaken requests, in any order:
-- spectators have been told of each die as often as it is revealed, so once or not at all; everybody has been
-- told of the end once if the roll is completed, and else not at all; until it is completed the roll is
-- registered and its caller waits, and afterwards neither; and a completed roll hides no die.
pub run-IsTracked :
    (prompt owner : String) (dice : List Die) (total : ℤ) (summary : String)
    → (early late : List Request) (es : List Event)
    → IsTracked (run es (send_client_roll prompt owner dice total summary early late))
run-IsTracked prompt owner dice total summary early late es =
    from_IsTracked es (send_client_roll prompt owner dice total summary early late)
      (sent-IsTracked prompt owner dice total summary early late)

pub finish_roll-completed : (r : PendingRoll) → (finish_roll r).completed ≡ true
unfolding finish_roll send
finish_roll-completed r = elim (Bool-cases r.completed) [ inl e ↦ rw e refl | inr e ↦ rw e refl ]

idle : (r : PendingRoll) → r.completed ≡ true → finish_roll r ≡ r
unfolding finish_roll
idle r e = rw e refl

-- Whatever happened to a roll before, once its wait is over its caller is released, everybody has
-- been told of the end exactly once, and no die is hidden; a second end of the wait changes nothing.
pub wait_over-completed :
    (prompt owner : String) (dice : List Die) (total : ℤ) (summary : String)
    → (early late : List Request) (es : List Event)
    → let r =
        step wait_over (run es (send_client_roll prompt owner dice total summary early late)) in
      (r.is_done ≡ true)
      × (ends_of r.sent ≡ 1)
      × (remaining r.revealed r.dice ≡ 0)
      × (step wait_over r ≡ r)
unfolding step
wait_over-completed prompt owner dice total summary early late es = (
  t.released ∙ done,
  t.ended ∙ rw done refl,
  t.bare done,
  idle (finish_roll (run es (send_client_roll prompt owner dice total summary early late))) done,
)
  where
    t :
        IsTracked
          (finish_roll (run es (send_client_roll prompt owner dice total summary early late)))
    t =
        finish_roll-IsTracked (run es (send_client_roll prompt owner dice total summary early late))
          (run-IsTracked prompt owner dice total summary early late es)

    done :
        (finish_roll
          (run es (send_client_roll prompt owner dice total summary early late))).completed
        ≡ true
    done =
        finish_roll-completed (run es (send_client_roll prompt owner dice total summary early late))
