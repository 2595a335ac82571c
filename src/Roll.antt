-- ===== src/Roll.antt =====
-- master/internal/server/client_roll.go: a roll whose dice the player reveals one by one.
pub mod Cases
pub mod Counts
pub mod Owner
pub mod Reveal
mod Tests
use package.layforge.Prelude.{
  ℕ, zero, suc, String, str_eq, Bool, true, false, not, ◌||◌, Option, none, some, List, [], ◌∷◌,
  ◌++◌, map, if◌then◌else◌, ◌==◌, ℤ, pos,
}

-- `protocol.ClientRollDie`
pub record Die : Type 0 where
  pub id : String
  pub sides : ℤ
  pub label : String
  pub result : ℤ

pub data Purpose : Type 0 where
  check save death_save : Purpose

-- `checkPurpose`
unfoldable pub check_purpose : String → Purpose
check_purpose kind =
    if str_eq kind "saving_throw"
    then save
    else if str_eq kind "death_save"
    then death_save
    else check

-- Why a reveal is rejected.
pub data Complaint : Type 0 where
  ids_required not_waiting not_yours already_revealed no_such_die : Complaint

-- The messages of a roll, with whom they go to: its owner, the others of the campaign, everybody, or
-- the connection that asked.
pub data Message : Type 0 where
  owner_roll : List Die → Message
  others_spectate : List Die → Message
  others_reveal : String → ℤ → Message
  all_complete : ℤ → String → Message
  asker_error : Complaint → Message

-- `pendingRoll`, with its prompt id, whether `pendingRolls` has it under that id, whether its channel
-- `done` is closed, and the messages sent for it, the oldest first.
pub record PendingRoll : Type 0 where
  pub prompt_id : String
  pub owner_sender : String
  pub dice : List Die
  pub revealed : List String
  pub total : ℤ
  pub result_summary : String
  pub completed : Bool
  pub is_registered : Bool
  pub is_done : Bool
  pub sent : List Message

unfoldable pub send : List Message → PendingRoll → PendingRoll
send ms r = record r { sent = r.sent ++ ms }

-- The die as spectators see it.
unfoldable pub without_result : Die → Die
without_result d = record d { result = pos 0 }

-- `pr.revealed[id]`
unfoldable pub has : String → List String → Bool
has id [] = false
has id (x ∷ xs) = if str_eq x id then true else has id xs

-- The first loop of `revealDie`.
unfoldable pub result_of : String → List Die → Option ℤ
result_of id [] = none
result_of id (d ∷ ds) = if str_eq d.id id then some d.result else result_of id ds

-- Its second loop: how many dice are hidden.
unfoldable pub remaining : List String → List Die → ℕ
unfolding has
remaining revealed [] = 0
remaining revealed (d ∷ ds) =
    if has d.id revealed then remaining revealed ds else suc (remaining revealed ds)

-- The loop of `finishRoll`: what is revealed after it, and the messages for the dice it reveals.
unfoldable pub self_reveal : List Die → List String → List String × List Message
unfolding has
self_reveal [] revealed = (revealed, [])
self_reveal (d ∷ ds) revealed =
    let rest = self_reveal ds (d.id ∷ revealed) in
    let same = self_reveal ds revealed in
    if has d.id revealed then same else (rest.0, others_reveal d.id d.result ∷ rest.1)

-- `finishRoll`
unfoldable pub finish_roll : PendingRoll → PendingRoll
unfolding self_reveal send
finish_roll r =
    if r.completed
    then r
    else (let (revealed, reveals) = self_reveal r.dice r.revealed in
        send (reveals ++ all_complete r.total r.result_summary ∷ []) (record r {
          completed = true;
          revealed = revealed;
          is_registered = false;
          is_done = true;
        }))

-- `revealDie` and the end of `handleClientRollReveal`.
unfoldable pub reveal_die : String → PendingRoll → PendingRoll
unfolding has result_of remaining send finish_roll
reveal_die id r =
    if has id r.revealed
    then send (asker_error already_revealed ∷ []) r
    else elim (result_of id r.dice) [
      | none ↦ send (asker_error no_such_die ∷ []) r
      | some n ↦
          let r' = send (others_reveal id n ∷ []) (record r { revealed = id ∷ r.revealed }) in
          if remaining r'.revealed r'.dice == 0 then finish_roll r' else r'
    ]

-- `handleClientRollReveal` of a sender, a prompt id and a die id.
unfoldable pub handle_reveal : String → String → String → PendingRoll → PendingRoll
unfolding send reveal_die
handle_reveal sender prompt id r =
    if str_eq prompt "" || str_eq id ""
    then send (asker_error ids_required ∷ []) r
    else if not r.is_registered || not (str_eq prompt r.prompt_id)
    then send (asker_error not_waiting ∷ []) r
    else if not (str_eq r.owner_sender sender)
    then send (asker_error not_yours ∷ []) r
    else reveal_die id r

-- A request to reveal: its sender, prompt id and die id.
abbrev pub Request : Type 0
Request = String × String × String

-- The requests that come while `sendClientRollAndWait` sends, in their order.
unfoldable pub handle_early : List Request → PendingRoll → PendingRoll
unfolding handle_reveal
handle_early [] r = r
handle_early ((sender, prompt, id) ∷ rest) r = handle_early rest (handle_reveal sender prompt id r)

-- The roll once `client.roll` has gone to its owner: not yet registered.
unfoldable pub ask_owner : String → String → List Die → ℤ → String → PendingRoll
ask_owner prompt owner dice total summary = record {
  prompt_id = prompt;
  owner_sender = owner;
  dice = dice;
  revealed = [];
  total = total;
  result_summary = summary;
  completed = false;
  is_registered = false;
  is_done = false;
  sent = owner_roll dice ∷ [];
}

-- `sendClientRollAndWait` up to its wait, with the requests that come between its two messages and
-- those between the second one and `registerPendingRoll`.
unfoldable pub send_client_roll :
    String → String → List Die → ℤ → String → List Request → List Request → PendingRoll
unfolding without_result ask_owner handle_early send
send_client_roll prompt owner dice total summary early late =
    let asked = handle_early early (ask_owner prompt owner dice total summary) in
    let told = send (others_spectate (map without_result dice) ∷ []) asked in
    record (handle_early late told) { is_registered = true }

-- What can happen to a roll: a request to reveal, the end of the wait by its timer or its context, and
-- the rest of a request that looked the roll up before it was finished.
pub data Event : Type 0 where
  request : String → String → String → Event
  wait_over : Event
  overtaken : String → Event

unfoldable pub step : Event → PendingRoll → PendingRoll
unfolding handle_reveal reveal_die finish_roll
step (request sender prompt id) r = handle_reveal sender prompt id r
step wait_over r = finish_roll r
step (overtaken id) r = reveal_die id r

unfoldable pub run : List Event → PendingRoll → PendingRoll
unfolding step
run [] r = r
run (e ∷ es) r = run es (step e r)
