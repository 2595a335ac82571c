-- ===== src/Tools/Confined.antt =====
-- master/internal/server/dm_tools.go and vendor.go: the tools on one character, and the gifts, stay
-- within their campaign.
use layforge.Prelude.{String, str_eq, not, Option, none, some, ℤ, ltb_ℤ, ◌||◌, ◌&&◌}
use layforge.Tools.Services.{
  Services, Character, Actor, Exchange, Purse, EquipmentSlot, equip_item, unequip_item, stow_item,
  draw_item, add_item, remove_item, add_currency, apply_effect, remove_currency, transfer_item,
  transfer_currency,
}
use layforge.Tools.Actions.{
  Code, invalid_arguments, pvp_blocked, amount_out_of_range, insufficient_funds, effect_failed,
  equip_failed, unequip_failed, pack_failed, draw_failed, receive_failed, discard_failed,
  give_failed, add_currency_failed, transfer_currency_failed, Answer, told, applied, Tool, give,
  refuse, ◌>>=◌, parsed, save_updated_character, pvp_gate_blocked, ask, ask_exchange, owner_exempt,
  allows_pvp, campaign_policy,
}
use layforge.Tools.Items.{
  parse_equipment_slot, act_on, dm_equip_item, dm_unequip_item, dm_pack_item, dm_draw_item,
  dm_receive_item, dm_discard_item, dm_add_currency, purse_out_of_range, dm_spend_currency,
  effect_gate, character_status_after, dm_apply_effect, hand_over, dm_give_item,
  dm_transfer_currency, max_effect_amount, min_effect_amount,
}
use layforge.Tools.Scoped.{Loaded}
use layforge.Tools.Isolated.{
  Stays, bind-Stays, found-Stays, give-Stays, refuse-Stays, if-Stays, parsed-Stays, save-Stays,
  ask-Stays, ask_exchange-Stays, pvp_gate_blocked-Stays, act_on-Stays,
}

module _ (v : Services) (k : String) (start : v.Store) where
  abbrev Still : {A : Type 0} → Tool v A → Type 0
  Still = Stays v k start

  abbrev At : Character → Type 0
  At = Loaded v k start

  -- One step and the rest.
  then_Still :
      {A B : Type 0} (m : Tool v A) (f : A → Tool v B)
      → Still m
      → ((a : A) → Still (f a))
      → Still (m >>= f)
  then_Still = bind-Stays v k start

  pub dm_equip_item-Stays : (id item slot : String) → Still (dm_equip_item v k id item slot)
  unfolding dm_equip_item
  dm_equip_item-Stays id item slot = go (parse_equipment_slot slot)
    where
      run : Option EquipmentSlot → Tool v Answer
      run o = elim o [
        | none ↦ refuse invalid_arguments
        | some s ↦ act_on v k id (equip_item item s) equip_failed
      ]

      go : (o : Option EquipmentSlot) → Still (run o)
      go none = refuse-Stays v k start invalid_arguments
      go (some s) = act_on-Stays v k start id (equip_item item s) equip_failed

  pub dm_unequip_item-Stays : (id slot : String) → Still (dm_unequip_item v k id slot)
  unfolding dm_unequip_item
  dm_unequip_item-Stays id slot = go (parse_equipment_slot slot)
    where
      run : Option EquipmentSlot → Tool v Answer
      run o = elim o [
        | none ↦ refuse invalid_arguments
        | some s ↦ act_on v k id (unequip_item s) unequip_failed
      ]

      go : (o : Option EquipmentSlot) → Still (run o)
      go none = refuse-Stays v k start invalid_arguments
      go (some s) = act_on-Stays v k start id (unequip_item s) unequip_failed

  pub dm_spend_currency-Stays :
      (sender id : String) (p : Purse) → Still (dm_spend_currency v k sender id p)
  unfolding dm_spend_currency
  dm_spend_currency-Stays sender id p = found-Stays v k start id _ (λ c l.
      then_Still (parsed v c) _ (parsed-Stays v k start c) (λ a.
        then_Still (pvp_gate_blocked v k sender c) _ (pvp_gate_blocked-Stays v k start sender c)
          (λ u.
            then_Still (ask v k (remove_currency p) insufficient_funds a) _
              (ask-Stays v k start (remove_currency p) insufficient_funds a)
              (λ r.
                then_Still (save_updated_character v c r.actor) _ (save-Stays v k start c r.actor l)
                  (λ u'. give-Stays v k start (told r.result_message))))))

  character_status_after-Stays : (a : Actor v.Data) → Still (character_status_after v a)
  unfolding character_status_after
  character_status_after-Stays a w i = record { kept = i; holds = tt }

  effect_gate-Stays :
      (sender effect_type : String) (c : Character) → Still (effect_gate v k sender effect_type c)
  unfolding effect_gate
  effect_gate-Stays sender effect_type c =
      if-Stays v k start
        (str_eq effect_type "damage"
          && not (owner_exempt sender c)
          && not (allows_pvp (campaign_policy v k).pvp_policy))
        (refuse pvp_blocked) (give tt) (refuse-Stays v k start pvp_blocked)
        (give-Stays v k start tt)

  pub dm_apply_effect-Stays :
      (sender id effect : String) (n : ℤ) (damage : String)
      → Still (dm_apply_effect v k sender id effect n damage)
  unfolding dm_apply_effect
  dm_apply_effect-Stays sender id effect n damage =
      if-Stays v k start (ltb_ℤ max_effect_amount n || ltb_ℤ n min_effect_amount)
        (refuse amount_out_of_range) _ (refuse-Stays v k start amount_out_of_range)
        (found-Stays v k start id _ (λ c l.
          then_Still (effect_gate v k sender effect c) _ (effect_gate-Stays sender effect c) (λ u.
            then_Still (parsed v c) _ (parsed-Stays v k start c) (λ a.
              then_Still (ask v k (apply_effect effect n damage) effect_failed a) _
                (ask-Stays v k start (apply_effect effect n damage) effect_failed a)
                (λ r.
                  then_Still (save_updated_character v c r.actor) _
                    (save-Stays v k start c r.actor l)
                    (λ u'.
                      then_Still (character_status_after v r.actor) _
                        (character_status_after-Stays r.actor)
                        (λ status. give-Stays v k start (applied status))))))))

  -- Two characters saved, and then the answer.
  pub both_saved :
      (c d : Character) (a b : Actor v.Data) (answer : Answer)
      → At c
      → At d
      → Still
          (save_updated_character v c a >>= λ u. save_updated_character v d b >>= λ u'. give answer)
  both_saved c d a b answer l m =
      then_Still (save_updated_character v c a) _ (save-Stays v k start c a l) (λ u.
        then_Still (save_updated_character v d b) _ (save-Stays v k start d b m)
          (λ u'. give-Stays v k start answer))

  hand_over-Stays :
      (sender id target_id : String) (request : Exchange) (failed : Code)
      → Still (hand_over v k sender id target_id request failed)
  unfolding hand_over
  hand_over-Stays sender id target_id request failed =
      if-Stays v k start (str_eq target_id "") (refuse invalid_arguments) _
        (refuse-Stays v k start invalid_arguments)
        (found-Stays v k start id _ (λ c l.
          then_Still (parsed v c) _ (parsed-Stays v k start c) (λ a.
            found-Stays v k start target_id _ (λ d m.
              then_Still (parsed v d) _ (parsed-Stays v k start d) (λ b.
                then_Still (pvp_gate_blocked v k sender c) _
                  (pvp_gate_blocked-Stays v k start sender c)
                  (λ u.
                    then_Still (ask_exchange v k request failed a b) _
                      (ask_exchange-Stays v k start request failed a b)
                      (λ r. both_saved c d r.source r.target (told r.result_message) l m)))))))

  pub dm_pack_item-Stays : (id item container : String) → Still (dm_pack_item v k id item container)
  unfolding dm_pack_item
  dm_pack_item-Stays id item container =
      act_on-Stays v k start id (stow_item item container) pack_failed

  pub dm_draw_item-Stays : (id item : String) → Still (dm_draw_item v k id item)
  unfolding dm_draw_item
  dm_draw_item-Stays id item = act_on-Stays v k start id (draw_item item) draw_failed

  pub dm_receive_item-Stays : (id item : String) → Still (dm_receive_item v k id item)
  unfolding dm_receive_item
  dm_receive_item-Stays id item = act_on-Stays v k start id (add_item item) receive_failed

  pub dm_discard_item-Stays : (id item : String) → Still (dm_discard_item v k id item)
  unfolding dm_discard_item
  dm_discard_item-Stays id item = act_on-Stays v k start id (remove_item item) discard_failed

  pub dm_add_currency-Stays : (id : String) (p : Purse) → Still (dm_add_currency v k id p)
  unfolding dm_add_currency
  dm_add_currency-Stays id p =
      if-Stays v k start (purse_out_of_range p) (refuse amount_out_of_range) _
        (refuse-Stays v k start amount_out_of_range)
        (act_on-Stays v k start id (add_currency p) add_currency_failed)

  pub dm_give_item-Stays :
      (sender id target_id item : String) → Still (dm_give_item v k sender id target_id item)
  unfolding dm_give_item
  dm_give_item-Stays sender id target_id item =
      hand_over-Stays sender id target_id (transfer_item item) give_failed

  pub dm_transfer_currency-Stays :
      (sender id target_id : String) (p : Purse)
      → Still (dm_transfer_currency v k sender id target_id p)
  unfolding dm_transfer_currency
  dm_transfer_currency-Stays sender id target_id p =
      hand_over-Stays sender id target_id (transfer_currency p) transfer_currency_failed
