-- ===== src/Tools/Strikes.antt =====
-- master/internal/server/dm_tools.go: attacks, grapples, shoves and spells, whose PvP gate comes after
-- the engine's answer.
use layforge.Prelude.{String, str_eq, Bool, not, ◌&&◌, Option, none, some, if◌then◌else◌, ℤ}
use layforge.Tools.Services.{
  Services, Character, AttackKind, ShoveEffect, prone, push, Strike, attack, grapple, shove, Actor,
  Struck,
}
use layforge.Tools.Actions.{
  Code, invalid_arguments, pvp_blocked, attack_failed, grapple_failed, shove_failed,
  cast_spell_failed, Answer, told, Tool, give, refuse, call, ◌>>=◌, campaign_character,
  campaign_policy, parsed, save_updated_character, character_may_act, owner_exempt, allows_pvp,
}

module _ (v : Services) where
  -- `pvpBlocked`: the strike hits another player's character and the policy does not allow it.
  unfoldable pub hit_blocked : String → String → Bool → Character → Bool
  unfolding owner_exempt allows_pvp campaign_policy
  hit_blocked campaign sender hits target =
      hits
      && not (owner_exempt sender target)
      && not (allows_pvp (campaign_policy v campaign).pvp_policy)

  -- The target's new data is saved if the response has one.
  unfoldable pub save_target : Character → Option (Actor v.Data) → Tool v Unit
  unfolding save_updated_character
  save_target target none = give tt
  save_target target (some a) = save_updated_character v target a

  -- The end of the tools: the actor is saved in any case, the target unless the gate blocks it.
  unfoldable pub settle : String → String → Character → Character → Struck v.Data → Tool v Answer
  unfolding hit_blocked save_updated_character save_target
  settle campaign sender actor target r = do
    _ ← save_updated_character v actor r.actor
    if hit_blocked campaign sender r.hits target
        then refuse pvp_blocked
        else (do _ ← save_target target r.target; give (told r.result_message))

  -- What `dmAttack`, `dmGrapple` and `dmShove` do once their arguments are read.
  unfoldable pub strike_at : String → String → String → String → Strike → Code → Tool v Answer
  unfolding campaign_character character_may_act parsed settle
  strike_at campaign sender id target_id request failed = do
    actor ← campaign_character v campaign id
    _ ← character_may_act v actor
    a ← parsed v actor
    target ← campaign_character v campaign target_id
    b ← parsed v target
    r ← call v (v.strike campaign request a b (v.grid_context campaign actor.id target.id))
    if not r.success then refuse failed else settle campaign sender actor target r

  unfoldable pub dm_attack : String → String → String → String → AttackKind → Tool v Answer
  unfolding strike_at
  dm_attack campaign sender id target_id kind =
      if str_eq target_id ""
      then refuse invalid_arguments
      else strike_at campaign sender id target_id (attack kind) attack_failed

  unfoldable pub dm_grapple : String → String → String → String → Tool v Answer
  unfolding strike_at
  dm_grapple campaign sender id target_id =
      if str_eq target_id ""
      then refuse invalid_arguments
      else strike_at campaign sender id target_id grapple grapple_failed

  unfoldable pub parse_shove_effect : String → Option ShoveEffect
  parse_shove_effect s =
      if str_eq s "prone" then some prone else if str_eq s "push" then some push else none

  unfoldable pub dm_shove : String → String → String → String → String → Tool v Answer
  unfolding strike_at parse_shove_effect
  dm_shove campaign sender id target_id effect =
      if str_eq target_id "" then refuse invalid_arguments else elim (parse_shove_effect effect) [
        | none ↦ refuse invalid_arguments
        | some e ↦ strike_at campaign sender id target_id (shove e) shove_failed
      ]

  -- A spell without a target: only the caster is saved.
  unfoldable pub cast_alone : String → Character → Actor v.Data → String → ℤ → Tool v Answer
  unfolding save_updated_character
  cast_alone campaign caster a spell slot_level = do
    r ← call v (v.cast_spell campaign spell slot_level a none none)
    if not r.success
        then refuse cast_spell_failed
        else (do _ ← save_updated_character v caster r.actor; give (told r.result_message))

  unfoldable pub cast_at :
      String → String → Character → Actor v.Data → String → String → ℤ → Tool v Answer
  unfolding campaign_character parsed settle
  cast_at campaign sender caster a target_id spell slot_level = do
    target ← campaign_character v campaign target_id
    b ← parsed v target
    r ← call v (
        v.cast_spell campaign spell slot_level a (some b)
          (v.grid_context campaign caster.id target.id))
    if not r.success then refuse cast_spell_failed else settle campaign sender caster target r

  unfoldable pub dm_cast_spell : String → String → String → String → String → ℤ → Tool v Answer
  unfolding campaign_character character_may_act parsed cast_alone cast_at
  dm_cast_spell campaign sender id spell target_id slot_level =
      if str_eq spell "" then refuse invalid_arguments else (do
        caster ← campaign_character v campaign id
        _ ← character_may_act v caster
        a ← parsed v caster
        if str_eq target_id ""
            then cast_alone campaign caster a spell slot_level
            else cast_at campaign sender caster a target_id spell slot_level)
