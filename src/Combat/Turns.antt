-- ===== src/Combat/Turns.antt =====
-- master/internal/server/turn_order.go, with `campaignCharacter` of dm_tools.go and `persistCombatState`
-- of combat_state.go. Calls run one after another; messages and warnings are listed as they go out.
use layforge.Prelude.{
  ℕ, zero, suc, Bool, true, false, not, String, str_eq, Option, none, some, List, [], ◌∷◌, ◌++◌,
  map, if◌then◌else◌, length, get_elem?, ℤ, pos, negsuc, ◌+ℤ◌, leb_ℤ, lookup, insert, delete,
  string_eq,
}
use layforge.CombatMap.State.{State}
use layforge.Combat.Engine.{Character, CharacterStatus, dead, TurnStarted, Engine}

-- `turnOrder`
pub record TurnOrder : Type 0 where
  pub is_active : Bool
  pub order : List String
  pub current_index : ℤ
  pub round : ℤ

-- `protocol.TurnStatePayload`
pub record TurnState : Type 0 where
  pub is_active : Bool
  pub round : ℤ
  pub order : List String
  pub current : String

-- `combatMapMeta`, without the display colours.
pub record CombatMapMeta : Type 0 where
  pub state : State
  pub owners : List (String × String)

-- What goes out: `turn.state`, the skip narration, and the interactive rolls.
pub data Message : Type 0 where
  turn_state : TurnState → Message
  skip : String → String → Message
  death_save : String → Message
  initiative : String → Message

-- The two parts of `combatStateSnapshot`.
abbrev pub Snapshot : Type 0
Snapshot = Option TurnOrder × Option CombatMapMeta

abbrev pub nobody : TurnState
nobody = record { is_active = false; round = pos 0; order = []; current = "" }

-- `xs[i]` on an `int` index, where `none` is the panic.
unfoldable pub elem_at : {A : Type 0} → List A → ℤ → Option A
elem_at xs (pos i) = get_elem? xs i
elem_at xs (negsuc i) = none

-- `toPayload`, where `none` is a panic.
unfoldable pub to_payload : TurnOrder → Option TurnState
unfolding elem_at
to_payload t =
    if not t.is_active
    then some (record nobody { round = t.round })
    else elim (elem_at t.order t.current_index) [
      | none ↦ none
      | some c ↦ some (record { is_active = true; round = t.round; order = t.order; current = c })
    ]

-- What an initiative roll gives: the field names of `rolled`.
pub record Rolled : Type 0 where
  pub character_id : String
  pub total : ℤ

-- `sort.SliceStable` by descending total: a roll goes before the first smaller total.
unfoldable pub insert_roll : Rolled → List Rolled → List Rolled
insert_roll r [] = r ∷ []
insert_roll r (q ∷ rs) = if leb_ℤ q.total r.total then r ∷ q ∷ rs else q ∷ insert_roll r rs

unfoldable pub sort_rolls : List Rolled → List Rolled
unfolding insert_roll
sort_rolls [] = []
sort_rolls (r ∷ rs) = insert_roll r (sort_rolls rs)

-- How a call ends.
pub data Result {ℓ} (A : Type ℓ) : Type ℓ where
  ok : A → Result A
  failed : Result A
  panicked : Result A

unfoldable pub is_dead_status : Option CharacterStatus → Option Bool
is_dead_status none = none
is_dead_status (some dead) = some true
is_dead_status (some _) = some false

-- The top of the loop body: the next index, and the next round after the last one.
unfoldable pub next_index : TurnOrder → TurnOrder
next_index t =
    if leb_ℤ (pos (length t.order)) (t.current_index +ℤ pos 1)
    then record t { current_index = pos 0; round = t.round +ℤ pos 1 }
    else record t { current_index = t.current_index +ℤ pos 1 }

-- What one turn of the loop finds out about the character under the index.
pub data Landing : Type 0 where
  no_index not_found dead_one : Landing
  acts incapacitated : Landing

-- The order that `startCombat` stores, before its first turn.
unfoldable pub fresh_order : List Rolled → TurnOrder
unfolding sort_rolls
fresh_order rolls = record {
  is_active = true;
  order = map (λ r. r.character_id) (sort_rolls rolls);
  current_index = negsuc 0;
  round = pos 1;
}

module _ (engine : Engine) where
  -- The part of `Server` that a combat touches. `persisted` is none if no store is configured.
  pub record Server : Type 0 where
    pub turn_orders : List (String × TurnOrder)
    pub combat_maps : List (String × CombatMapMeta)
    pub persisted : Option (List (String × Snapshot))
    pub world : engine.World
    pub sent : List Message

  unfoldable pub send : Message → Server → Server
  send m s = record s { sent = s.sent ++ m ∷ [] }

  unfoldable pub put_order : String → TurnOrder → Server → Server
  put_order campaign t s = record s { turn_orders = insert campaign t s.turn_orders }

  -- `campaignCharacter`
  unfoldable pub campaign_character : String → String → Server → Option Character
  campaign_character campaign id s = elim (engine.get_character id s.world) [
    | none ↦ none
    | some c ↦ if not (str_eq c.campaign_id campaign) then none else some c
  ]

  -- `characterIsDead`
  unfoldable pub character_is_dead : Character → Server → Option Bool × Server
  unfolding is_dead_status
  character_is_dead c s =
      if not (engine.parses c.character_data)
      then (none, s)
      else let (status, w) = engine.get_character_status c s.world in
        (is_dead_status status, record s { world = w })

  -- The rest of `startTurnFor` after a successful response.
  unfoldable pub turn_started : Character → TurnStarted → Server → Bool × Server
  unfolding send
  turn_started c r s = elim r.actor [
    | none ↦ (true, if r.death_save then send (death_save c.id) s else s)
    | some d ↦
        let (saved, w) = engine.save_character (record c { character_data = d }) s.world in
        if not saved then (false, record s { world = w }) else (
          true,
          if r.death_save
              then send (death_save c.id) (record s { world = w })
              else record s { world = w },
        )
  ]

  -- `startTurnFor`: whether it returned nil. Its caller only logs an error.
  unfoldable pub start_turn_for : String → String → Server → Bool × Server
  unfolding campaign_character turn_started
  start_turn_for campaign id s = elim (campaign_character campaign id s) [
    | none ↦ (false, s)
    | some c ↦
        if not (engine.parses c.character_data)
        then (false, s)
        else let (answer, w) = engine.start_turn c s.world in
          elim answer [
            | none ↦ (false, record s { world = w })
            | some r ↦
                if not r.success
                then (false, record s { world = w })
                else turn_started c r (record s { world = w })
          ]
  ]

  -- `checkCanAct`: the answer with its reason, or an error.
  unfoldable pub check_can_act : String → String → Server → Option (Bool × String) × Server
  unfolding campaign_character
  check_can_act campaign id s = elim (campaign_character campaign id s) [
    | none ↦ (none, s)
    | some c ↦
        if not (engine.parses c.character_data)
        then (none, s)
        else let (answer, w) = engine.get_available_actions c s.world in
          elim answer [
            | none ↦ (none, record s { world = w })
            | some r ↦
                if not r.success
                then (none, record s { world = w })
                else (some (r.can_act, r.cannot_act_reason), record s { world = w })
          ]
  ]

  -- `persistCombatState`
  unfoldable pub persist_combat_state : String → Server → Server
  persist_combat_state campaign s = elim s.persisted [
    | none ↦ s
    | some store ↦ record s {
      persisted = some (elim (lookup campaign s.turn_orders) [
        | none ↦ elim (lookup campaign s.combat_maps) [
          | none ↦ store
          | some m ↦ insert campaign (none, some m) store
        ]
        | some t ↦ insert campaign (some t, lookup campaign s.combat_maps) store
      ]);
    }
  ]

  -- `endCombat`
  unfoldable pub end_combat : String → Server → TurnState × Server
  unfolding send
  end_combat campaign s = (
    nobody,
    send (turn_state nobody) (record s {
      turn_orders = delete campaign s.turn_orders;
      combat_maps = delete campaign s.combat_maps;
      persisted = elim s.persisted [ none ↦ none | some store ↦ some (delete campaign store) ];
    }),
  )

  -- Announce the turn order `t`, which the campaign's entry holds, and persist it.
  unfoldable pub announce : String → TurnOrder → Server → Result TurnState × Server
  unfolding to_payload send persist_combat_state put_order
  announce campaign t s = elim (to_payload t) [
    | none ↦ (panicked, put_order campaign t s)
    | some p ↦ (ok p, persist_combat_state campaign (send (turn_state p) (put_order campaign t s)))
  ]

  unfoldable pub visit : String → Character → Server → Landing × Server
  unfolding start_turn_for check_can_act send
  visit campaign c s =
      let (_, s1) = start_turn_for campaign c.id s in
      let (answer, s2) = check_can_act campaign c.id s1 in
      elim answer [
        | none ↦ (acts, s2)
        | some (can_act, reason) ↦
            if can_act then (acts, s2) else (incapacitated, send (skip c.id reason) s2)
      ]

  unfoldable pub land : String → TurnOrder → Server → Landing × Server
  unfolding elem_at campaign_character character_is_dead visit
  land campaign t s = elim (elem_at t.order t.current_index) [
    | none ↦ (no_index, s)
    | some id ↦ elim (campaign_character campaign id s) [
      | none ↦ (not_found, s)
      | some c ↦
          let (is_dead, s1) = character_is_dead c s in
          elim is_dead [
            | none ↦ (not_found, s1)
            | some b ↦ if b then (dead_one, s1) else visit campaign c s1
          ]
    ]
  ]

  -- After a full lap: the last one alive, or the end of the combat.
  unfoldable pub after_lap : String → Option ℤ → TurnOrder → Server → Result TurnState × Server
  unfolding announce end_combat
  after_lap campaign (some i) t s = announce campaign (record t { current_index = i }) s
  after_lap campaign none t s = let (p, s') = end_combat campaign s in (ok p, s')

  -- The loop of `advanceToNextActionableCharacter`, `n` turns from its end, with `lastAliveIndex`
  -- (none for -1). The entry of the campaign is the order that the loop changes.
  unfoldable pub advance_loop :
      ℕ → String → Option ℤ → TurnOrder → Server → Result TurnState × Server
  unfolding next_index land announce after_lap put_order
  advance_loop zero campaign last t s = after_lap campaign last t s
  advance_loop (suc n) campaign last t s =
      let t' = next_index t in
      let (found, s') = land campaign t' s in
      let rest = advance_loop n campaign last t' s' in
      let alive = advance_loop n campaign (some t'.current_index) t' s' in
      elim found [
        | no_index ↦ (panicked, put_order campaign t' s')
        | not_found ↦ (failed, put_order campaign t' s')
        | dead_one ↦ rest
        | incapacitated ↦ alive
        | acts ↦ announce campaign t' s'
      ]

  -- `advanceToNextActionableCharacter`
  unfoldable pub advance_to_next : String → TurnOrder → Server → Result TurnState × Server
  unfolding advance_loop
  advance_to_next campaign t s = advance_loop (length t.order) campaign none t s

  -- `combatParticipantIDs`
  unfoldable pub combat_participant_ids : String → Server → List String
  combat_participant_ids campaign s = elim (lookup campaign s.turn_orders) [
    | none ↦ []
    | some t ↦ if not t.is_active then [] else t.order
  ]

  -- One turn of the initiative loop: a dead character gives no roll, and a successful response without
  -- an outcome is the panic of `resp.Outcome.Total`.
  unfoldable pub roll_initiative : String → String → Server → Result (Option Rolled) × Server
  unfolding campaign_character character_is_dead send
  roll_initiative campaign id s = elim (campaign_character campaign id s) [
    | none ↦ (failed, s)
    | some c ↦
        let (is_dead, s1) = character_is_dead c s in
        elim is_dead [
          | none ↦ (failed, s1)
          | some b ↦
              if b
              then (ok none, s1)
              else if not (engine.parses c.character_data)
              then (failed, s1)
              else let (answer, w) = engine.resolve_check c s1.world in
                elim answer [
                  | none ↦ (failed, record s1 { world = w })
                  | some r ↦
                      if not r.success then (failed, record s1 { world = w }) else elim r.outcome [
                        | none ↦ (panicked, record s1 { world = w })
                        | some n ↦ (
                          ok (some (record { character_id = c.id; total = n })),
                          send (initiative c.id) (record s1 { world = w }),
                        )
                      ]
                ]
        ]
  ]

  -- The initiative loop: the rolls in the order of the characters.
  unfoldable pub roll_all : String → List String → Server → Result (List Rolled) × Server
  unfolding roll_initiative
  roll_all campaign [] s = (ok [], s)
  roll_all campaign (id ∷ ids) s =
      let (roll, s1) = roll_initiative campaign id s in
      let (rest, s2) = roll_all campaign ids s1 in
      elim roll [
        | panicked ↦ (panicked, s1)
        | failed ↦ (failed, s1)
        | ok none ↦ (rest, s2)
        | ok (some r) ↦ elim rest [
          | panicked ↦ (panicked, s2)
          | failed ↦ (failed, s2)
          | ok rs ↦ (ok (r ∷ rs), s2)
        ]
      ]

  -- `startCombat`
  unfoldable pub start_combat : String → List String → Server → Result TurnState × Server
  unfolding roll_all fresh_order put_order advance_to_next
  start_combat campaign [] s = (failed, s)
  start_combat campaign (id ∷ ids) s =
      let (rolls, s1) = roll_all campaign (id ∷ ids) s in
      elim rolls [
        | panicked ↦ (panicked, s1)
        | failed ↦ (failed, s1)
        | ok [] ↦ (failed, s1)
        | ok (r ∷ rs) ↦
            advance_to_next campaign (fresh_order (r ∷ rs))
              (put_order campaign (fresh_order (r ∷ rs)) s1)
      ]

  -- `advanceTurn`
  unfoldable pub advance_turn : String → Server → Result TurnState × Server
  unfolding advance_to_next
  advance_turn campaign s = elim (lookup campaign s.turn_orders) [
    | none ↦ (failed, s)
    | some t ↦ if not t.is_active then (failed, s) else advance_to_next campaign t s
  ]

  -- `currentTurnCharacterID`: `ok none` if no combat is active.
  unfoldable pub current_turn_character_id : String → Server → Result (Option String)
  unfolding elem_at
  current_turn_character_id campaign s = elim (lookup campaign s.turn_orders) [
    | none ↦ ok none
    | some t ↦
        if not t.is_active
        then ok none
        else elim (elem_at t.order t.current_index) [ none ↦ panicked | some c ↦ ok (some c) ]
  ]

  -- `enforceTurnOrder`: `ok` is the nil error, and `failed` an action out of turn.
  unfoldable pub enforce_turn_order : String → String → Server → Result Bool
  unfolding current_turn_character_id
  enforce_turn_order campaign id s = elim (current_turn_character_id campaign s) [
    | ok none ↦ ok true
    | ok (some current) ↦ if str_eq id current then ok true else failed
    | failed ↦ failed
    | panicked ↦ panicked
  ]
