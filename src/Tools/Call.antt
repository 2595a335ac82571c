-- ===== src/Tools/Call.antt =====
-- master/internal/server/dm_tools.go: the dispatch of the tools on characters and their belongings.
use layforge.Prelude.{String, ℤ}
use layforge.Tools.Services.{Services, Purse, melee, ranged, offhand}
use layforge.Tools.Actions.{invalid_arguments, unknown_tool, Answer, Tool, refuse}
use layforge.Tools.Items.{
  dm_equip_item, dm_unequip_item, dm_pack_item, dm_draw_item, dm_receive_item, dm_discard_item,
  dm_add_currency, dm_spend_currency, dm_apply_effect, dm_give_item, dm_transfer_currency,
}
use layforge.Tools.Strikes.{dm_attack, dm_grapple, dm_shove, dm_cast_spell}
use layforge.Tools.Vendor.{
  dm_check_item_price, dm_list_vendor_inventory, dm_vendor_sell_item, dm_vendor_buy_item,
}

-- An `llm.ToolCall` of one of these tools, with its arguments read: `unreadable` is one whose
-- arguments are no JSON of the tool's shape, and `unknown` a call by a name for which `callDMTool` has
-- no case. The calls of its other tools (checks, loot, status, combat, schemas, NPCs, images, locations,
-- stashes, vehicles, private narration) are not of this type.
pub data CharacterToolCall : Type 0 where
  unknown unreadable : CharacterToolCall
  apply_effect : String → String → ℤ → String → CharacterToolCall
  cast_spell : String → String → String → ℤ → CharacterToolCall
  melee_attack ranged_attack offhand_attack grapple : String → String → CharacterToolCall
  shove : String → String → String → CharacterToolCall
  equip_item : String → String → String → CharacterToolCall
  unequip_item : String → String → CharacterToolCall
  pack_item : String → String → String → CharacterToolCall
  draw_item receive_item discard_item : String → String → CharacterToolCall
  give_item : String → String → String → CharacterToolCall
  add_currency spend_currency : String → Purse → CharacterToolCall
  transfer_currency : String → String → Purse → CharacterToolCall
  check_item_price list_vendor_inventory : String → CharacterToolCall
  vendor_sell_item vendor_buy_item : String → String → String → CharacterToolCall

-- `callDMTool`, on the calls of these tools.
unfoldable pub call_dm_tool : (v : Services) → String → String → CharacterToolCall → Tool v Answer
unfolding dm_equip_item dm_unequip_item dm_pack_item dm_draw_item dm_receive_item dm_discard_item
    dm_add_currency dm_spend_currency dm_apply_effect dm_give_item dm_transfer_currency dm_attack
    dm_grapple dm_shove dm_cast_spell dm_check_item_price dm_list_vendor_inventory
    dm_vendor_sell_item dm_vendor_buy_item
call_dm_tool v k sender unknown = refuse unknown_tool
call_dm_tool v k sender unreadable = refuse invalid_arguments
call_dm_tool v k sender (apply_effect id effect n damage) =
    dm_apply_effect v k sender id effect n damage
call_dm_tool v k sender (cast_spell id spell target slot) =
    dm_cast_spell v k sender id spell target slot
call_dm_tool v k sender (melee_attack id target) = dm_attack v k sender id target melee
call_dm_tool v k sender (ranged_attack id target) = dm_attack v k sender id target ranged
call_dm_tool v k sender (offhand_attack id target) = dm_attack v k sender id target offhand
call_dm_tool v k sender (grapple id target) = dm_grapple v k sender id target
call_dm_tool v k sender (shove id target effect) = dm_shove v k sender id target effect
call_dm_tool v k sender (equip_item id item slot) = dm_equip_item v k id item slot
call_dm_tool v k sender (unequip_item id slot) = dm_unequip_item v k id slot
call_dm_tool v k sender (pack_item id item container) = dm_pack_item v k id item container
call_dm_tool v k sender (draw_item id item) = dm_draw_item v k id item
call_dm_tool v k sender (receive_item id item) = dm_receive_item v k id item
call_dm_tool v k sender (discard_item id item) = dm_discard_item v k id item
call_dm_tool v k sender (give_item id target item) = dm_give_item v k sender id target item
call_dm_tool v k sender (add_currency id p) = dm_add_currency v k id p
call_dm_tool v k sender (spend_currency id p) = dm_spend_currency v k sender id p
call_dm_tool v k sender (transfer_currency id target p) =
    dm_transfer_currency v k sender id target p
call_dm_tool v k sender (check_item_price item) = dm_check_item_price v k item
call_dm_tool v k sender (list_vendor_inventory id) = dm_list_vendor_inventory v k id
call_dm_tool v k sender (vendor_sell_item vendor buyer item) =
    dm_vendor_sell_item v k sender vendor buyer item
call_dm_tool v k sender (vendor_buy_item vendor seller item) =
    dm_vendor_buy_item v k sender vendor seller item
