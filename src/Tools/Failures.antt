-- ===== src/Tools/Failures.antt =====
-- master/internal/server/dm_tools.go and vendor.go: no call that fails early leaves a trace.
use layforge.Prelude.{String, ◌≡◌, refl, subst, ◌⊎◌, inl, inr, true, false, arith}
use layforge.Tools.Services.{Services, melee, ranged, offhand}
use layforge.Tools.Actions.{Code, Answer, Reply, refused, World}
use layforge.Tools.Call.{
  CharacterToolCall, unknown, unreadable, apply_effect, cast_spell, melee_attack, ranged_attack,
  offhand_attack, grapple, shove, equip_item, unequip_item, pack_item, draw_item, receive_item,
  discard_item, give_item, add_currency, spend_currency, transfer_currency, check_item_price,
  list_vendor_inventory, vendor_sell_item, vendor_buy_item, call_dm_tool,
}
use layforge.Tools.Early.{late, OnRefused, Clean}
use layforge.Tools.Untouched.{
  dm_equip_item-Clean, dm_unequip_item-Clean, dm_pack_item-Clean, dm_draw_item-Clean,
  dm_receive_item-Clean, dm_discard_item-Clean, dm_add_currency-Clean, dm_spend_currency-Clean,
  dm_apply_effect-Clean, dm_give_item-Clean, dm_transfer_currency-Clean, dm_attack-Clean,
  dm_grapple-Clean, dm_shove-Clean, dm_cast_spell-Clean, dm_check_item_price-Clean,
  dm_list_vendor_inventory-Clean, dm_vendor_sell_item-Clean, dm_vendor_buy_item-Clean,
}

unsaved :
    (v : Services) (w : World v) (r : Reply Answer × World v) (c : Code)
    → OnRefused (λ d. (late d ≡ true) ⊎ (r.1.store ≡ w.store)) r.0
    → r.0 ≡ refused c
    → late c ≡ false
    → r.1.store ≡ w.store
unsaved v w r c h e n =
    elim (subst (OnRefused (λ d. (late d ≡ true) ⊎ (r.1.store ≡ w.store))) e h) [
      | inl l ↦ absurd (ground arith)
      | inr s ↦ s
    ]

module _ (v : Services) (k : String) where
  call_dm_tool-Clean :
      (sender : String) (t : CharacterToolCall) → Clean v (call_dm_tool v k sender t)
  unfolding call_dm_tool
  call_dm_tool-Clean sender unknown = λ w. inr refl
  call_dm_tool-Clean sender unreadable = λ w. inr refl
  call_dm_tool-Clean sender (apply_effect id effect n damage) =
      dm_apply_effect-Clean v k sender id effect n damage
  call_dm_tool-Clean sender (cast_spell id spell target slot) =
      dm_cast_spell-Clean v k sender id spell target slot
  call_dm_tool-Clean sender (melee_attack id target) = dm_attack-Clean v k sender id target melee
  call_dm_tool-Clean sender (ranged_attack id target) = dm_attack-Clean v k sender id target ranged
  call_dm_tool-Clean sender (offhand_attack id target) =
      dm_attack-Clean v k sender id target offhand
  call_dm_tool-Clean sender (grapple id target) = dm_grapple-Clean v k sender id target
  call_dm_tool-Clean sender (shove id target effect) = dm_shove-Clean v k sender id target effect
  call_dm_tool-Clean sender (equip_item id item slot) = dm_equip_item-Clean v k id item slot
  call_dm_tool-Clean sender (unequip_item id slot) = dm_unequip_item-Clean v k id slot
  call_dm_tool-Clean sender (pack_item id item container) = dm_pack_item-Clean v k id item container
  call_dm_tool-Clean sender (draw_item id item) = dm_draw_item-Clean v k id item
  call_dm_tool-Clean sender (receive_item id item) = dm_receive_item-Clean v k id item
  call_dm_tool-Clean sender (discard_item id item) = dm_discard_item-Clean v k id item
  call_dm_tool-Clean sender (give_item id target item) =
      dm_give_item-Clean v k sender id target item
  call_dm_tool-Clean sender (add_currency id p) = dm_add_currency-Clean v k id p
  call_dm_tool-Clean sender (spend_currency id p) = dm_spend_currency-Clean v k sender id p
  call_dm_tool-Clean sender (transfer_currency id target p) =
      dm_transfer_currency-Clean v k sender id target p
  call_dm_tool-Clean sender (check_item_price item) = dm_check_item_price-Clean v k item
  call_dm_tool-Clean sender (list_vendor_inventory id) = dm_list_vendor_inventory-Clean v k id
  call_dm_tool-Clean sender (vendor_sell_item vendor buyer item) =
      dm_vendor_sell_item-Clean v k sender vendor buyer item
  call_dm_tool-Clean sender (vendor_buy_item vendor seller item) =
      dm_vendor_buy_item-Clean v k sender vendor seller item

-- If a call of one of the tools of CharacterToolCall (effects, spells, attacks, grapples, shoves, items,
-- coins and vendors) is refused with any code but internal_error and pvp_blocked, the store is the one
-- before the call: no part of it was saved.
pub call_dm_tool-Untouched :
    (v : Services) (campaign sender : String) (t : CharacterToolCall) (w : World v) (c : Code)
    → (call_dm_tool v campaign sender t w).0 ≡ refused c
    → late c ≡ false
    → (call_dm_tool v campaign sender t w).1.store ≡ w.store
call_dm_tool-Untouched v campaign sender t w c e n =
    unsaved v w (call_dm_tool v campaign sender t w) c (call_dm_tool-Clean v campaign sender t w) e
      n
