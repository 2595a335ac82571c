-- ===== src/Tools/Untouched.antt =====
-- master/internal/server/dm_tools.go and vendor.go: a tool that fails before it saves leaves the store.
use layforge.Prelude.{
  String, str_eq, refl, inr, Bool, true, false, not, Option, none, some, List, [], ◌∷◌,
  if◌then◌else◌, ℤ, ltb_ℤ, ◌||◌, ◌&&◌,
}
use layforge.Tools.Services.{
  Services, Character, Actor, Struck, Request, Exchange, Strike, Purse, EquipmentSlot, ShoveEffect,
  apply_effect, remove_currency, transfer_item, transfer_currency, shove, equip_item, unequip_item,
  add_currency, stow_item, draw_item, add_item, remove_item, attack, grapple, AttackKind,
}
use layforge.Tools.Coins.{copper_to_denominations, denominations_to_copper}
use layforge.Tools.Actions.{
  Code, internal_error, invalid_arguments, pvp_blocked, amount_out_of_range, item_not_found,
  insufficient_funds, vendor_insufficient_funds, vendor_sell_failed, vendor_buy_failed,
  list_inventory_failed, effect_failed, equip_failed, unequip_failed, add_currency_failed,
  shove_failed, cast_spell_failed, pack_failed, draw_failed, receive_failed, discard_failed,
  give_failed, transfer_currency_failed, attack_failed, grapple_failed, Answer, told, applied,
  priced, listed, traded, Tool, give, refuse, call, ◌>>=◌, campaign_character, parsed,
  save_updated_character, character_may_act, pvp_gate_blocked, ask, ask_exchange, owner_exempt,
  allows_pvp, campaign_policy,
}
use layforge.Tools.Items.{
  parse_equipment_slot, act_on, dm_equip_item, dm_unequip_item, dm_pack_item, dm_draw_item,
  dm_receive_item, dm_discard_item, dm_give_item, dm_transfer_currency, dm_add_currency,
  purse_out_of_range, dm_spend_currency, effect_gate, character_status_after, dm_apply_effect,
  hand_over, max_effect_amount, min_effect_amount,
}
use layforge.Tools.Strikes.{
  hit_blocked, save_target, settle, strike_at, dm_attack, dm_grapple, dm_shove, parse_shove_effect,
  cast_alone, cast_at, dm_cast_spell,
}
use layforge.Tools.Vendor.{
  item_price_copper, dm_check_item_price, price_list, dm_list_vendor_inventory, trade,
  dm_vendor_sell_item, dm_vendor_buy_item,
}
use layforge.Tools.Early.{
  Early, Late, Clean, bind-Early, bind-Clean, bind-Late, Late-Clean, Early-Clean, if-Early,
  if-Clean, call-Early, campaign_character-Early, parsed-Early, ask-Early, ask_exchange-Early,
  character_may_act-Early, pvp_gate_blocked-Early, save-Late,
}

module _ (v : Services) (k : String) where
  abbrev Tidy : {A : Type 0} → Tool v A → Type 0
  Tidy = Clean v

  -- An early step and the rest.
  then_Tidy :
      {A B : Type 0} (m : Tool v A) (f : A → Tool v B)
      → Early v m
      → ((a : A) → Tidy (f a))
      → Tidy (m >>= f)
  then_Tidy = bind-Clean v

  found_Tidy :
      {B : Type 0} (id : String) (f : Character → Tool v B)
      → ((c : Character) → Tidy (f c))
      → Tidy (campaign_character v k id >>= f)
  found_Tidy id f g = then_Tidy (campaign_character v k id) f (campaign_character-Early v k id) g

  parsed-Tidy :
      {B : Type 0} (c : Character) (f : Actor v.Data → Tool v B)
      → ((a : Actor v.Data) → Tidy (f a))
      → Tidy (parsed v c >>= f)
  parsed-Tidy c f g = then_Tidy (parsed v c) f (parsed-Early v c) g

  told_Late :
      (c : Character) (a : Actor v.Data) (answer : Answer)
      → Late v (save_updated_character v c a >>= λ u. give answer)
  told_Late c a answer =
      bind-Late v (save_updated_character v c a) (λ u. give answer) (save-Late v c a) (λ u w. tt)

  both_Late :
      (c d : Character) (a b : Actor v.Data) (answer : Answer)
      → Late v
          (save_updated_character v c a >>= λ u. save_updated_character v d b >>= λ u'. give answer)
  both_Late c d a b answer =
      bind-Late v (save_updated_character v c a) _ (save-Late v c a) (λ u. told_Late d b answer)

  pub act_on-Clean :
      (id : String) (request : Request) (failed : Code) → Tidy (act_on v k id request failed)
  unfolding act_on
  act_on-Clean id request failed = found_Tidy id _ (λ c. parsed-Tidy c _ (λ a.
      then_Tidy (ask v k request failed a) _ (ask-Early v k request failed a) (λ r.
        Late-Clean v (save_updated_character v c r.actor >>= λ u. give (told r.result_message))
          (told_Late c r.actor (told r.result_message)))))

  pub dm_equip_item-Clean : (id item slot : String) → Tidy (dm_equip_item v k id item slot)
  unfolding dm_equip_item
  dm_equip_item-Clean id item slot = go (parse_equipment_slot slot)
    where
      run : Option EquipmentSlot → Tool v Answer
      run o = elim o [
        | none ↦ refuse invalid_arguments
        | some s ↦ act_on v k id (equip_item item s) equip_failed
      ]

      go : (o : Option EquipmentSlot) → Tidy (run o)
      go none = λ w. inr refl
      go (some s) = act_on-Clean id (equip_item item s) equip_failed

  pub dm_unequip_item-Clean : (id slot : String) → Tidy (dm_unequip_item v k id slot)
  unfolding dm_unequip_item
  dm_unequip_item-Clean id slot = go (parse_equipment_slot slot)
    where
      run : Option EquipmentSlot → Tool v Answer
      run o = elim o [
        | none ↦ refuse invalid_arguments
        | some s ↦ act_on v k id (unequip_item s) unequip_failed
      ]

      go : (o : Option EquipmentSlot) → Tidy (run o)
      go none = λ w. inr refl
      go (some s) = act_on-Clean id (unequip_item s) unequip_failed

  pub dm_add_currency-Clean : (id : String) (p : Purse) → Tidy (dm_add_currency v k id p)
  unfolding dm_add_currency
  dm_add_currency-Clean id p =
      if-Clean v (purse_out_of_range p) (refuse amount_out_of_range) _ (λ w. inr refl)
        (act_on-Clean id (add_currency p) add_currency_failed)

  pub dm_spend_currency-Clean :
      (sender id : String) (p : Purse) → Tidy (dm_spend_currency v k sender id p)
  unfolding dm_spend_currency
  dm_spend_currency-Clean sender id p = found_Tidy id _ (λ c. parsed-Tidy c _ (λ a.
      then_Tidy (pvp_gate_blocked v k sender c) _ (pvp_gate_blocked-Early v k sender c) (λ u.
        then_Tidy (ask v k (remove_currency p) insufficient_funds a) _
          (ask-Early v k (remove_currency p) insufficient_funds a)
          (λ r.
            Late-Clean v (save_updated_character v c r.actor >>= λ u. give (told r.result_message))
              (told_Late c r.actor (told r.result_message))))))

  effect_gate-Early :
      (sender effect : String) (c : Character) → Early v (effect_gate v k sender effect c)
  unfolding effect_gate
  effect_gate-Early sender effect c =
      if-Early v
        (str_eq effect "damage"
          && not (owner_exempt sender c)
          && not (allows_pvp (campaign_policy v k).pvp_policy))
        (refuse pvp_blocked) (give tt) (λ w. refl) (λ w. refl)

  status_Late : (a : Actor v.Data) → Late v (character_status_after v a)
  unfolding character_status_after
  status_Late a w = tt

  pub dm_apply_effect-Clean :
      (sender id effect : String) (n : ℤ) (damage : String)
      → Tidy (dm_apply_effect v k sender id effect n damage)
  unfolding dm_apply_effect
  dm_apply_effect-Clean sender id effect n damage =
      if-Clean v (ltb_ℤ max_effect_amount n || ltb_ℤ n min_effect_amount)
        (refuse amount_out_of_range) _ (λ w. inr refl)
        (found_Tidy id _ (λ c.
          then_Tidy (effect_gate v k sender effect c) _ (effect_gate-Early sender effect c) (λ u.
            parsed-Tidy c _ (λ a.
              then_Tidy (ask v k (apply_effect effect n damage) effect_failed a) _
                (ask-Early v k (apply_effect effect n damage) effect_failed a)
                (λ r.
                  Late-Clean v
                    (save_updated_character v c r.actor >>= λ u.
                      character_status_after v r.actor >>= λ status. give (applied status))
                    (bind-Late v (save_updated_character v c r.actor) _ (save-Late v c r.actor)
                      (λ u'.
                        bind-Late v (character_status_after v r.actor)
                          (λ status. give (applied status)) (status_Late r.actor)
                          (λ status w. tt))))))))

  pub hand_over-Clean :
      (sender id target_id : String) (request : Exchange) (failed : Code)
      → Tidy (hand_over v k sender id target_id request failed)
  unfolding hand_over
  hand_over-Clean sender id target_id request failed =
      if-Clean v (str_eq target_id "") (refuse invalid_arguments) _ (λ w. inr refl)
        (found_Tidy id _ (λ c. parsed-Tidy c _ (λ a. found_Tidy target_id _ (λ d.
          parsed-Tidy d _ (λ b.
            then_Tidy (pvp_gate_blocked v k sender c) _ (pvp_gate_blocked-Early v k sender c) (λ u.
              then_Tidy (ask_exchange v k request failed a b) _
                (ask_exchange-Early v k request failed a b)
                (λ r.
                  Late-Clean v
                    (save_updated_character v c r.source >>= λ u.
                      save_updated_character v d r.target >>= λ u'. give (told r.result_message))
                    (both_Late c d r.source r.target (told r.result_message)))))))))

  save_target-Late : (d : Character) (o : Option (Actor v.Data)) → Late v (save_target v d o)
  unfolding save_target
  save_target-Late d none = λ w. tt
  save_target-Late d (some a) = save-Late v d a

  settled :
      (b : Bool) (d : Character) (r : Struck v.Data)
      → Late v (
          if b
          then refuse pvp_blocked
          else save_target v d r.target >>= λ u. give (told r.result_message))
  settled true d r = λ w. refl
  settled false d r =
      bind-Late v (save_target v d r.target) (λ u. give (told r.result_message))
        (save_target-Late d r.target) (λ u w. tt)

  settle-Clean :
      (sender : String) (c d : Character) (r : Struck v.Data) → Tidy (settle v k sender c d r)
  unfolding settle
  settle-Clean sender c d r =
      Late-Clean v
        (save_updated_character v c r.actor >>= λ u.
          if hit_blocked v k sender r.hits d
          then refuse pvp_blocked
          else save_target v d r.target >>= λ u'. give (told r.result_message))
        (bind-Late v (save_updated_character v c r.actor) _ (save-Late v c r.actor)
          (λ u. settled (hit_blocked v k sender r.hits d) d r))

  pub strike_at-Clean :
      (sender id target_id : String) (request : Strike) (failed : Code)
      → Tidy (strike_at v k sender id target_id request failed)
  unfolding strike_at
  strike_at-Clean sender id target_id request failed = found_Tidy id _ (λ c.
      then_Tidy (character_may_act v c) _ (character_may_act-Early v c) (λ u. parsed-Tidy c _ (λ a.
        found_Tidy target_id _ (λ d. parsed-Tidy d _ (λ b.
          then_Tidy (call v (v.strike k request a b (v.grid_context k c.id d.id))) _
            (call-Early v (v.strike k request a b (v.grid_context k c.id d.id)))
            (λ r.
              if-Clean v (not r.success) (refuse failed) (settle v k sender c d r) (λ w. inr refl)
                (settle-Clean sender c d r)))))))

  pub dm_shove-Clean :
      (sender id target_id effect : String) → Tidy (dm_shove v k sender id target_id effect)
  unfolding dm_shove
  dm_shove-Clean sender id target_id effect =
      if-Clean v (str_eq target_id "") (refuse invalid_arguments)
        (run (parse_shove_effect v effect)) (λ w. inr refl) (go (parse_shove_effect v effect))
    where
      run : Option ShoveEffect → Tool v Answer
      run o = elim o [
        | none ↦ refuse invalid_arguments
        | some e ↦ strike_at v k sender id target_id (shove e) shove_failed
      ]

      go : (o : Option ShoveEffect) → Tidy (run o)
      go none = λ w. inr refl
      go (some e) = strike_at-Clean sender id target_id (shove e) shove_failed

  cast_alone-Clean :
      (c : Character) (a : Actor v.Data) (spell : String) (slot : ℤ)
      → Tidy (cast_alone v k c a spell slot)
  unfolding cast_alone
  cast_alone-Clean c a spell slot =
      then_Tidy (call v (v.cast_spell k spell slot a none none)) _
        (call-Early v (v.cast_spell k spell slot a none none))
        (λ r.
          if-Clean v (not r.success) (refuse cast_spell_failed)
            (save_updated_character v c r.actor >>= λ u. give (told r.result_message))
            (λ w. inr refl)
            (Late-Clean v (save_updated_character v c r.actor >>= λ u. give (told r.result_message))
              (told_Late c r.actor (told r.result_message))))

  cast_at-Clean :
      (sender : String) (c : Character) (a : Actor v.Data) (target_id spell : String) (slot : ℤ)
      → Tidy (cast_at v k sender c a target_id spell slot)
  unfolding cast_at
  cast_at-Clean sender c a target_id spell slot = found_Tidy target_id _ (λ d. parsed-Tidy d _ (λ b.
      then_Tidy (call v (v.cast_spell k spell slot a (some b) (v.grid_context k c.id d.id))) _
        (call-Early v (v.cast_spell k spell slot a (some b) (v.grid_context k c.id d.id)))
        (λ r.
          if-Clean v (not r.success) (refuse cast_spell_failed) (settle v k sender c d r)
            (λ w. inr refl) (settle-Clean sender c d r))))

  pub dm_cast_spell-Clean :
      (sender id spell target_id : String) (slot : ℤ)
      → Tidy (dm_cast_spell v k sender id spell target_id slot)
  unfolding dm_cast_spell
  dm_cast_spell-Clean sender id spell target_id slot =
      if-Clean v (str_eq spell "") (refuse invalid_arguments) _ (λ w. inr refl)
        (found_Tidy id _ (λ c.
          then_Tidy (character_may_act v c) _ (character_may_act-Early v c) (λ u.
            parsed-Tidy c _ (λ a.
              if-Clean v (str_eq target_id "") (cast_alone v k c a spell slot)
                (cast_at v k sender c a target_id spell slot) (cast_alone-Clean c a spell slot)
                (cast_at-Clean sender c a target_id spell slot)))))

  pub item_price_copper-Early :
      (code : Code) (item : String) → Early v (item_price_copper v code k item)
  unfolding item_price_copper
  item_price_copper-Early code item =
      bind-Early v (call v (v.get_item_info item)) _ (call-Early v (v.get_item_info item)) (λ r.
        if-Early v (not r.success) (refuse code)
          (give (v.adjusted k (denominations_to_copper r.price))) (λ w. refl) (λ w. refl))

  pub dm_check_item_price-Clean : (item : String) → Tidy (dm_check_item_price v k item)
  unfolding dm_check_item_price
  dm_check_item_price-Clean item =
      Early-Clean v
        (item_price_copper v item_not_found k item >>= λ price.
          give (priced item (copper_to_denominations price)))
        (bind-Early v (item_price_copper v item_not_found k item) _
          (item_price_copper-Early item_not_found item) (λ price w. refl))

  price_list-Early : (items : List String) → Early v (price_list v k items)
  unfolding price_list
  price_list-Early [] = λ w. refl
  price_list-Early (item ∷ items) =
      bind-Early v (item_price_copper v internal_error k item) _
        (item_price_copper-Early internal_error item)
        (λ price.
          bind-Early v (price_list v k items)
            (λ rest. give ((item, copper_to_denominations price) ∷ rest)) (price_list-Early items)
            (λ rest w. refl))

  pub dm_list_vendor_inventory-Clean : (id : String) → Tidy (dm_list_vendor_inventory v k id)
  unfolding dm_list_vendor_inventory
  dm_list_vendor_inventory-Clean id = found_Tidy id _ (λ c. parsed-Tidy c _ (λ a.
      then_Tidy (call v (v.list_inventory a)) _ (call-Early v (v.list_inventory a)) (λ r.
        if-Clean v (not r.success) (refuse list_inventory_failed)
          (price_list v k r.item_names >>= λ items. give (listed items)) (λ w. inr refl)
          (Early-Clean v (price_list v k r.item_names >>= λ items. give (listed items)) (
            bind-Early v (price_list v k r.item_names) _ (price_list-Early r.item_names)
              (λ items w. refl))))))

  trade-Clean :
      (c d : Character) (a b : Actor v.Data) (item : String) (p : Purse) (failed poor : Code)
      → Tidy (trade v k c d a b item p failed poor)
  unfolding trade
  trade-Clean c d a b item p failed poor =
      then_Tidy (ask_exchange v k (transfer_item item) failed a b) _
        (ask_exchange-Early v k (transfer_item item) failed a b)
        (λ r.
          then_Tidy (ask_exchange v k (transfer_currency p) poor r.target r.source) _
            (ask_exchange-Early v k (transfer_currency p) poor r.target r.source)
            (λ q.
              Late-Clean v
                (save_updated_character v d q.source >>= λ u.
                  save_updated_character v c q.target >>= λ u'. give (traded item p))
                (both_Late d c q.source q.target (traded item p))))

  pub dm_vendor_sell_item-Clean :
      (sender vendor_id buyer_id item : String)
      → Tidy (dm_vendor_sell_item v k sender vendor_id buyer_id item)
  unfolding dm_vendor_sell_item
  dm_vendor_sell_item-Clean sender vendor_id buyer_id item = found_Tidy vendor_id _ (λ c.
      found_Tidy buyer_id _ (λ d.
        then_Tidy (pvp_gate_blocked v k sender c) _ (pvp_gate_blocked-Early v k sender c) (λ u.
          then_Tidy (item_price_copper v item_not_found k item) _
            (item_price_copper-Early item_not_found item)
            (λ price. parsed-Tidy c _ (λ a. parsed-Tidy d _ (λ b.
              trade-Clean c d a b item (copper_to_denominations price) vendor_sell_failed
                insufficient_funds))))))

  pub dm_vendor_buy_item-Clean :
      (sender vendor_id seller_id item : String)
      → Tidy (dm_vendor_buy_item v k sender vendor_id seller_id item)
  unfolding dm_vendor_buy_item
  dm_vendor_buy_item-Clean sender vendor_id seller_id item = found_Tidy vendor_id _ (λ c.
      found_Tidy seller_id _ (λ d.
        then_Tidy (pvp_gate_blocked v k sender d) _ (pvp_gate_blocked-Early v k sender d) (λ u.
          then_Tidy (item_price_copper v item_not_found k item) _
            (item_price_copper-Early item_not_found item)
            (λ price. parsed-Tidy d _ (λ a. parsed-Tidy c _ (λ b.
              trade-Clean d c a b item (copper_to_denominations price) vendor_buy_failed
                vendor_insufficient_funds))))))

  pub dm_pack_item-Clean : (id item container : String) → Tidy (dm_pack_item v k id item container)
  unfolding dm_pack_item
  dm_pack_item-Clean id item container = act_on-Clean id (stow_item item container) pack_failed

  pub dm_draw_item-Clean : (id item : String) → Tidy (dm_draw_item v k id item)
  unfolding dm_draw_item
  dm_draw_item-Clean id item = act_on-Clean id (draw_item item) draw_failed

  pub dm_receive_item-Clean : (id item : String) → Tidy (dm_receive_item v k id item)
  unfolding dm_receive_item
  dm_receive_item-Clean id item = act_on-Clean id (add_item item) receive_failed

  pub dm_discard_item-Clean : (id item : String) → Tidy (dm_discard_item v k id item)
  unfolding dm_discard_item
  dm_discard_item-Clean id item = act_on-Clean id (remove_item item) discard_failed

  pub dm_give_item-Clean :
      (sender id target_id item : String) → Tidy (dm_give_item v k sender id target_id item)
  unfolding dm_give_item
  dm_give_item-Clean sender id target_id item =
      hand_over-Clean sender id target_id (transfer_item item) give_failed

  pub dm_transfer_currency-Clean :
      (sender id target_id : String) (p : Purse)
      → Tidy (dm_transfer_currency v k sender id target_id p)
  unfolding dm_transfer_currency
  dm_transfer_currency-Clean sender id target_id p =
      hand_over-Clean sender id target_id (transfer_currency p) transfer_currency_failed

  aimed_Tidy :
      (sender id target_id : String) (request : Strike) (failed : Code)
      → Tidy (
          if str_eq target_id ""
          then refuse invalid_arguments
          else strike_at v k sender id target_id request failed)
  aimed_Tidy sender id target_id request failed =
      if-Clean v (str_eq target_id "") (refuse invalid_arguments)
        (strike_at v k sender id target_id request failed) (λ w. inr refl)
        (strike_at-Clean sender id target_id request failed)

  pub dm_attack-Clean :
      (sender id target_id : String) (kind : AttackKind)
      → Tidy (dm_attack v k sender id target_id kind)
  unfolding dm_attack
  dm_attack-Clean sender id target_id kind =
      aimed_Tidy sender id target_id (attack kind) attack_failed

  pub dm_grapple-Clean : (sender id target_id : String) → Tidy (dm_grapple v k sender id target_id)
  unfolding dm_grapple
  dm_grapple-Clean sender id target_id = aimed_Tidy sender id target_id grapple grapple_failed
