-- ===== src/Tools/Items.antt =====
-- master/internal/server/dm_tools.go: the tools that change one character, and the gifts between two.
use layforge.Prelude.{
  String, str_eq, Bool, not, ◌&&◌, ◌||◌, Option, none, some, if◌then◌else◌, ℤ, pos, negsuc, ltb_ℤ,
}
use layforge.Tools.Services.{
  Services, Character, Purse, EquipmentSlot, main_hand, off_hand, armor, shield, head, neck,
  shoulders, hands, waist, feet, ring_1, ring_2, back, Request, apply_effect, equip_item,
  unequip_item, stow_item, draw_item, add_item, remove_item, add_currency, remove_currency,
  Exchange, transfer_item, transfer_currency, Actor, CharacterStatus,
}
use layforge.Tools.Actions.{
  Code, invalid_arguments, amount_out_of_range, pvp_blocked, effect_failed, equip_failed,
  unequip_failed, pack_failed, draw_failed, receive_failed, discard_failed, give_failed,
  add_currency_failed, transfer_currency_failed, insufficient_funds, ok, Answer, told, applied,
  Tool, give, refuse, ◌>>=◌, campaign_character, campaign_policy, parsed, save_updated_character,
  pvp_gate_blocked, owner_exempt, allows_pvp, ask, ask_exchange,
}

-- `parseEquipmentSlot`
unfoldable pub parse_equipment_slot : String → Option EquipmentSlot
parse_equipment_slot s =
    if str_eq s "main_hand"
    then some main_hand
    else if str_eq s "off_hand"
    then some off_hand
    else if str_eq s "armor"
    then some armor
    else if str_eq s "shield"
    then some shield
    else if str_eq s "head"
    then some head
    else if str_eq s "neck"
    then some neck
    else if str_eq s "shoulders"
    then some shoulders
    else if str_eq s "hands"
    then some hands
    else if str_eq s "waist"
    then some waist
    else if str_eq s "feet"
    then some feet
    else if str_eq s "ring_1"
    then some ring_1
    else if str_eq s "ring_2"
    then some ring_2
    else if str_eq s "back"
    then some back
    else none

abbrev pub max_effect_amount : ℤ
max_effect_amount = pos 1000

abbrev pub min_effect_amount : ℤ
min_effect_amount = negsuc 999

abbrev pub max_currency_per_call : ℤ
max_currency_per_call = pos 100000

unfoldable pub out_of_range : ℤ → Bool
out_of_range amount = ltb_ℤ amount (pos 0) || ltb_ℤ max_currency_per_call amount

-- The loop over the four amounts.
unfoldable pub purse_out_of_range : Purse → Bool
unfolding out_of_range
purse_out_of_range p =
    out_of_range p.copper || out_of_range p.silver || out_of_range p.gold || out_of_range p.platinum

module _ (v : Services) where
  -- What the tools on one character do once their arguments are read: look the character up, ask the
  -- engine, and save what it answers.
  unfoldable pub act_on : String → String → Request → Code → Tool v Answer
  unfolding campaign_character parsed ask save_updated_character
  act_on campaign id request failed = do
    c ← campaign_character v campaign id
    a ← parsed v c
    r ← ask v campaign request failed a
    _ ← save_updated_character v c r.actor
    give (told r.result_message)

  unfoldable pub dm_equip_item : String → String → String → String → Tool v Answer
  unfolding act_on parse_equipment_slot
  dm_equip_item campaign id item slot = elim (parse_equipment_slot slot) [
    | none ↦ refuse invalid_arguments
    | some s ↦ act_on campaign id (equip_item item s) equip_failed
  ]

  unfoldable pub dm_unequip_item : String → String → String → Tool v Answer
  unfolding act_on parse_equipment_slot
  dm_unequip_item campaign id slot = elim (parse_equipment_slot slot) [
    | none ↦ refuse invalid_arguments
    | some s ↦ act_on campaign id (unequip_item s) unequip_failed
  ]

  unfoldable pub dm_pack_item : String → String → String → String → Tool v Answer
  unfolding act_on
  dm_pack_item campaign id item container =
      act_on campaign id (stow_item item container) pack_failed

  unfoldable pub dm_draw_item : String → String → String → Tool v Answer
  unfolding act_on
  dm_draw_item campaign id item = act_on campaign id (draw_item item) draw_failed

  unfoldable pub dm_receive_item : String → String → String → Tool v Answer
  unfolding act_on
  dm_receive_item campaign id item = act_on campaign id (add_item item) receive_failed

  unfoldable pub dm_discard_item : String → String → String → Tool v Answer
  unfolding act_on
  dm_discard_item campaign id item = act_on campaign id (remove_item item) discard_failed

  unfoldable pub dm_add_currency : String → String → Purse → Tool v Answer
  unfolding act_on purse_out_of_range
  dm_add_currency campaign id p =
      if purse_out_of_range p
      then refuse amount_out_of_range
      else act_on campaign id (add_currency p) add_currency_failed

  unfoldable pub dm_spend_currency : String → String → String → Purse → Tool v Answer
  unfolding campaign_character parsed pvp_gate_blocked ask save_updated_character
  dm_spend_currency campaign sender id p = do
    c ← campaign_character v campaign id
    a ← parsed v c
    _ ← pvp_gate_blocked v campaign sender c
    r ← ask v campaign (remove_currency p) insufficient_funds a
    _ ← save_updated_character v c r.actor
    give (told r.result_message)

  -- `characterStatusAfter`, where `none` is an unknown status; the tool only logs an error.
  unfoldable pub character_status_after : Actor v.Data → Tool v (Option CharacterStatus)
  character_status_after a w =
      let (status, o) = v.get_character_status a w.outside in (ok status, record w { outside = o })

  -- The PvP gate of `dmApplyEffect`: damage to another player's character.
  unfoldable pub effect_gate : String → String → String → Character → Tool v Unit
  unfolding owner_exempt allows_pvp campaign_policy
  effect_gate campaign sender effect_type c =
      if str_eq effect_type "damage"
        && not (owner_exempt sender c)
        && not (allows_pvp (campaign_policy v campaign).pvp_policy)
      then refuse pvp_blocked
      else give tt

  unfoldable pub dm_apply_effect : String → String → String → String → ℤ → String → Tool v Answer
  unfolding campaign_character effect_gate parsed ask save_updated_character character_status_after
  dm_apply_effect campaign sender id effect_type amount damage_type =
      if ltb_ℤ max_effect_amount amount || ltb_ℤ amount min_effect_amount
      then refuse amount_out_of_range
      else (do
        c ← campaign_character v campaign id
        _ ← effect_gate campaign sender effect_type c
        a ← parsed v c
        r ← ask v campaign (apply_effect effect_type amount damage_type) effect_failed a
        _ ← save_updated_character v c r.actor
        status ← character_status_after r.actor
        give (applied status))

  -- What `dmGiveItem` and `dmTransferCurrency` do once their arguments are read.
  unfoldable pub hand_over : String → String → String → String → Exchange → Code → Tool v Answer
  unfolding campaign_character parsed pvp_gate_blocked ask_exchange save_updated_character
  hand_over campaign sender id target_id request failed =
      if str_eq target_id "" then refuse invalid_arguments else (do
        source ← campaign_character v campaign id
        a ← parsed v source
        target ← campaign_character v campaign target_id
        b ← parsed v target
        _ ← pvp_gate_blocked v campaign sender source
        r ← ask_exchange v campaign request failed a b
        _ ← save_updated_character v source r.source
        _ ← save_updated_character v target r.target
        give (told r.result_message))

  unfoldable pub dm_give_item : String → String → String → String → String → Tool v Answer
  unfolding hand_over
  dm_give_item campaign sender id target_id item =
      hand_over campaign sender id target_id (transfer_item item) give_failed

  unfoldable pub dm_transfer_currency : String → String → String → String → Purse → Tool v Answer
  unfolding hand_over
  dm_transfer_currency campaign sender id target_id p =
      hand_over campaign sender id target_id (transfer_currency p) transfer_currency_failed
