-- ===== src/Combat/Engine.antt =====
-- What the turn order calls: the character store and the System Engine, which answers over gRPC.
-- Neither is part of the server, so both are parameters, with one state between them.
use layforge.Prelude.{Bool, String, Option, ℤ}

-- What the server reads of `store.Character`; `character_data` is its stored JSON.
pub record Character : Type 0 where
  pub id : String
  pub campaign_id : String
  pub owner_id : String
  pub is_approved : Bool
  pub character_data : String

pub data CharacterStatus : Type 0 where
  active unconscious dying stable dead unspecified : CharacterStatus

-- `StartTurnResponse`: the actor's new data, and whether a death save was rolled with an outcome.
pub record TurnStarted : Type 0 where
  pub success : Bool
  pub actor : Option String
  pub death_save : Bool

-- `GetAvailableActionsResponse`
pub record AvailableActions : Type 0 where
  pub success : Bool
  pub can_act : Bool
  pub cannot_act_reason : String

-- `ResolveCheckResponse`, with the total of its outcome, where `none` is a nil outcome.
pub record CheckResolved : Type 0 where
  pub success : Bool
  pub outcome : Option ℤ

-- `none` is an error. `parses` is whether protojson reads the stored data.
pub record Engine : Type 1 where
  pub World : Type 0
  pub parses : String → Bool
  pub get_character : String → World → Option Character
  pub save_character : Character → World → Bool × World
  pub get_character_status : Character → World → Option CharacterStatus × World
  pub start_turn : Character → World → Option TurnStarted × World
  pub get_available_actions : Character → World → Option AvailableActions × World
  pub resolve_check : Character → World → Option CheckResolved × World
