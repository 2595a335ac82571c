-- ===== src/Tools/Vendor.antt =====
-- master/internal/server/vendor.go: prices and trades.
use layforge.Prelude.{String, not, List, [], ◌∷◌, if◌then◌else◌, ℤ}
use layforge.Tools.Services.{Services, Character, Purse, transfer_item, transfer_currency, Actor}
use layforge.Tools.Coins.{copper_to_denominations, denominations_to_copper}
use layforge.Tools.Actions.{
  Code, internal_error, item_not_found, list_inventory_failed, insufficient_funds,
  vendor_insufficient_funds, vendor_sell_failed, vendor_buy_failed, Answer, priced, listed, traded,
  Tool, give, refuse, call, ◌>>=◌, campaign_character, parsed, save_updated_character,
  pvp_gate_blocked, ask_exchange,
}

module _ (v : Services) where
  -- `itemPriceCopper`, with the code that its caller gives an unknown item.
  unfoldable pub item_price_copper : Code → String → String → Tool v ℤ
  unfolding denominations_to_copper
  item_price_copper unknown campaign item = do
    r ← call v (v.get_item_info item)
    if not r.success
        then refuse unknown
        else give (v.adjusted campaign (denominations_to_copper r.price))

  unfoldable pub dm_check_item_price : String → String → Tool v Answer
  unfolding item_price_copper copper_to_denominations
  dm_check_item_price campaign item = do
    price ← item_price_copper item_not_found campaign item
    give (priced item (copper_to_denominations price))

  -- The loop over the inventory.
  unfoldable pub price_list : String → List String → Tool v (List (String × Purse))
  unfolding item_price_copper copper_to_denominations
  price_list campaign [] = give []
  price_list campaign (item ∷ items) = do
    price ← item_price_copper internal_error campaign item
    rest ← price_list campaign items
    give ((item, copper_to_denominations price) ∷ rest)

  unfoldable pub dm_list_vendor_inventory : String → String → Tool v Answer
  unfolding campaign_character parsed price_list
  dm_list_vendor_inventory campaign id = do
    c ← campaign_character v campaign id
    a ← parsed v c
    r ← call v (v.list_inventory a)
    if not r.success
        then refuse list_inventory_failed
        else (do items ← price_list campaign r.item_names; give (listed items))

  -- Both legs of a trade, from the giver of the item to its payer: neither is saved before both
  -- have succeeded.
  unfoldable pub trade :
      String
      → Character
      → Character
      → Actor v.Data
      → Actor v.Data
      → String
      → Purse
      → Code
      → Code
      → Tool v Answer
  unfolding ask_exchange save_updated_character
  trade campaign giver payer a b item price failed poor = do
    moved ← ask_exchange v campaign (transfer_item item) failed a b
    paid ← ask_exchange v campaign (transfer_currency price) poor moved.target moved.source
    _ ← save_updated_character v payer paid.source
    _ ← save_updated_character v giver paid.target
    give (traded item price)

  -- `dmVendorSellItem`
  unfoldable pub dm_vendor_sell_item : String → String → String → String → String → Tool v Answer
  unfolding campaign_character pvp_gate_blocked item_price_copper copper_to_denominations parsed
      trade
  dm_vendor_sell_item campaign sender vendor_id buyer_id item = do
    vendor ← campaign_character v campaign vendor_id
    buyer ← campaign_character v campaign buyer_id
    _ ← pvp_gate_blocked v campaign sender vendor
    price ← item_price_copper item_not_found campaign item
    a ← parsed v vendor
    b ← parsed v buyer
    trade campaign vendor buyer a b item (copper_to_denominations price) vendor_sell_failed
        insufficient_funds

  -- `dmVendorBuyItem`
  unfoldable pub dm_vendor_buy_item : String → String → String → String → String → Tool v Answer
  unfolding campaign_character pvp_gate_blocked item_price_copper copper_to_denominations parsed
      trade
  dm_vendor_buy_item campaign sender vendor_id seller_id item = do
    vendor ← campaign_character v campaign vendor_id
    seller ← campaign_character v campaign seller_id
    _ ← pvp_gate_blocked v campaign sender seller
    price ← item_price_copper item_not_found campaign item
    a ← parsed v seller
    b ← parsed v vendor
    trade campaign seller vendor a b item (copper_to_denominations price) vendor_buy_failed
        vendor_insufficient_funds
