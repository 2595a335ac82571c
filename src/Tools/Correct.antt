-- ===== src/Tools/Correct.antt =====
-- master/internal/server/dm_tools.go and vendor.go: every tool call changes only data of characters of
-- its campaign.
use layforge.Prelude.{String}
use layforge.Tools.Services.{Services, melee, ranged, offhand}
use layforge.Tools.Actions.{invalid_arguments, unknown_tool, World}
use layforge.Tools.Call.{
  CharacterToolCall, unknown, unreadable, apply_effect, cast_spell, melee_attack, ranged_attack,
  offhand_attack, grapple, shove, equip_item, unequip_item, pack_item, draw_item, receive_item,
  discard_item, give_item, add_currency, spend_currency, transfer_currency, check_item_price,
  list_vendor_inventory, vendor_sell_item, vendor_buy_item, call_dm_tool,
}
use layforge.Tools.Scoped.{Kept, Inv-refl}
use layforge.Tools.Isolated.{Stays, refuse-Stays}
use layforge.Tools.Confined.{
  dm_equip_item-Stays, dm_unequip_item-Stays, dm_pack_item-Stays, dm_draw_item-Stays,
  dm_receive_item-Stays, dm_discard_item-Stays, dm_add_currency-Stays, dm_spend_currency-Stays,
  dm_apply_effect-Stays, dm_give_item-Stays, dm_transfer_currency-Stays,
}
use layforge.Tools.Fights.{dm_attack-Stays, dm_grapple-Stays, dm_shove-Stays, dm_cast_spell-Stays}
use layforge.Tools.Trades.{
  dm_check_item_price-Stays, dm_list_vendor_inventory-Stays, dm_vendor_sell_item-Stays,
  dm_vendor_buy_item-Stays,
}

module _ (v : Services) (k : String) (start : v.Store) where
  call_dm_tool-Stays :
      (sender : String) (t : CharacterToolCall) → Stays v k start (call_dm_tool v k sender t)
  unfolding call_dm_tool
  call_dm_tool-Stays sender unknown = refuse-Stays v k start unknown_tool
  call_dm_tool-Stays sender unreadable = refuse-Stays v k start invalid_arguments
  call_dm_tool-Stays sender (apply_effect id effect n damage) =
      dm_apply_effect-Stays v k start sender id effect n damage
  call_dm_tool-Stays sender (cast_spell id spell target slot) =
      dm_cast_spell-Stays v k start sender id spell target slot
  call_dm_tool-Stays sender (melee_attack id target) =
      dm_attack-Stays v k start sender id target melee
  call_dm_tool-Stays sender (ranged_attack id target) =
      dm_attack-Stays v k start sender id target ranged
  call_dm_tool-Stays sender (offhand_attack id target) =
      dm_attack-Stays v k start sender id target offhand
  call_dm_tool-Stays sender (grapple id target) = dm_grapple-Stays v k start sender id target
  call_dm_tool-Stays sender (shove id target effect) =
      dm_shove-Stays v k start sender id target effect
  call_dm_tool-Stays sender (equip_item id item slot) = dm_equip_item-Stays v k start id item slot
  call_dm_tool-Stays sender (unequip_item id slot) = dm_unequip_item-Stays v k start id slot
  call_dm_tool-Stays sender (pack_item id item container) =
      dm_pack_item-Stays v k start id item container
  call_dm_tool-Stays sender (draw_item id item) = dm_draw_item-Stays v k start id item
  call_dm_tool-Stays sender (receive_item id item) = dm_receive_item-Stays v k start id item
  call_dm_tool-Stays sender (discard_item id item) = dm_discard_item-Stays v k start id item
  call_dm_tool-Stays sender (give_item id target item) =
      dm_give_item-Stays v k start sender id target item
  call_dm_tool-Stays sender (add_currency id p) = dm_add_currency-Stays v k start id p
  call_dm_tool-Stays sender (spend_currency id p) = dm_spend_currency-Stays v k start sender id p
  call_dm_tool-Stays sender (transfer_currency id target p) =
      dm_transfer_currency-Stays v k start sender id target p
  call_dm_tool-Stays sender (check_item_price item) = dm_check_item_price-Stays v k start item
  call_dm_tool-Stays sender (list_vendor_inventory id) = dm_list_vendor_inventory-Stays v k start id
  call_dm_tool-Stays sender (vendor_sell_item vendor buyer item) =
      dm_vendor_sell_item-Stays v k start sender vendor buyer item
  call_dm_tool-Stays sender (vendor_buy_item vendor seller item) =
      dm_vendor_buy_item-Stays v k start sender vendor seller item

-- Whatever the services answer, with or without success, a call of one of the tools of
-- CharacterToolCall (effects, spells, attacks, grapples, shoves, items, coins and vendors) in a campaign
-- neither adds nor removes a character; of a character of the campaign only the data and the time of
-- change can differ afterwards, and a character of another campaign is stored unchanged.
pub call_dm_tool-Kept :
    (v : Services) (campaign sender : String) (t : CharacterToolCall) (w : World v) (id : String)
    → Kept campaign
        (v.get_character id w.store)
        (v.get_character id (call_dm_tool v campaign sender t w).1.store)
call_dm_tool-Kept v campaign sender t w id =
    (call_dm_tool-Stays v campaign w.store sender t w (Inv-refl v campaign w.store)).kept id
