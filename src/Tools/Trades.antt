-- ===== src/Tools/Trades.antt =====
-- master/internal/server/vendor.go: prices and trades stay within their campaign.
use layforge.Prelude.{String, not, List, [], ◌∷◌}
use layforge.Tools.Services.{Services, Character, Actor, Purse, transfer_item, transfer_currency}
use layforge.Tools.Coins.{copper_to_denominations, denominations_to_copper}
use layforge.Tools.Actions.{
  Code, internal_error, item_not_found, insufficient_funds, vendor_insufficient_funds,
  vendor_sell_failed, vendor_buy_failed, list_inventory_failed, priced, listed, traded, Tool, give,
  refuse, call, ◌>>=◌, parsed, pvp_gate_blocked, ask_exchange,
}
use layforge.Tools.Vendor.{
  item_price_copper, dm_check_item_price, price_list, dm_list_vendor_inventory, trade,
  dm_vendor_sell_item, dm_vendor_buy_item,
}
use layforge.Tools.Scoped.{Loaded}
use layforge.Tools.Isolated.{
  Stays, bind-Stays, found-Stays, give-Stays, refuse-Stays, if-Stays, call-Stays, parsed-Stays,
  ask_exchange-Stays, pvp_gate_blocked-Stays,
}
use layforge.Tools.Confined.{both_saved}

module _ (v : Services) (k : String) (start : v.Store) where
  abbrev Still : {A : Type 0} → Tool v A → Type 0
  Still = Stays v k start

  abbrev At : Character → Type 0
  At = Loaded v k start

  -- One step and the rest.
  then_Still :
      {A B : Type 0} (m : Tool v A) (f : A → Tool v B)
      → Still m
      → ((a : A) → Still (f a))
      → Still (m >>= f)
  then_Still = bind-Stays v k start

  item_price_copper-Stays : (code : Code) (item : String) → Still (item_price_copper v code k item)
  unfolding item_price_copper
  item_price_copper-Stays code item =
      then_Still (call v (v.get_item_info item)) _ (call-Stays v k start (v.get_item_info item))
        (λ r.
          if-Stays v k start (not r.success) (refuse code)
            (give (v.adjusted k (denominations_to_copper r.price))) (refuse-Stays v k start code)
            (give-Stays v k start (v.adjusted k (denominations_to_copper r.price))))

  pub dm_check_item_price-Stays : (item : String) → Still (dm_check_item_price v k item)
  unfolding dm_check_item_price
  dm_check_item_price-Stays item =
      then_Still (item_price_copper v item_not_found k item) _
        (item_price_copper-Stays item_not_found item)
        (λ price. give-Stays v k start (priced item (copper_to_denominations price)))

  price_list-Stays : (items : List String) → Still (price_list v k items)
  unfolding price_list
  price_list-Stays [] = give-Stays v k start []
  price_list-Stays (item ∷ items) =
      then_Still (item_price_copper v internal_error k item) _
        (item_price_copper-Stays internal_error item)
        (λ price.
          then_Still (price_list v k items) _ (price_list-Stays items)
            (λ rest. give-Stays v k start ((item, copper_to_denominations price) ∷ rest)))

  pub dm_list_vendor_inventory-Stays : (id : String) → Still (dm_list_vendor_inventory v k id)
  unfolding dm_list_vendor_inventory
  dm_list_vendor_inventory-Stays id = found-Stays v k start id _ (λ c l.
      then_Still (parsed v c) _ (parsed-Stays v k start c) (λ a.
        then_Still (call v (v.list_inventory a)) _ (call-Stays v k start (v.list_inventory a)) (λ r.
          if-Stays v k start (not r.success) (refuse list_inventory_failed)
            (price_list v k r.item_names >>= λ items. give (listed items))
            (refuse-Stays v k start list_inventory_failed)
            (then_Still (price_list v k r.item_names) _ (price_list-Stays r.item_names)
              (λ items. give-Stays v k start (listed items))))))

  trade-Stays :
      (c d : Character) (a b : Actor v.Data) (item : String) (p : Purse) (failed poor : Code)
      → At c
      → At d
      → Still (trade v k c d a b item p failed poor)
  unfolding trade
  trade-Stays c d a b item p failed poor l m =
      then_Still (ask_exchange v k (transfer_item item) failed a b) _
        (ask_exchange-Stays v k start (transfer_item item) failed a b)
        (λ r.
          then_Still (ask_exchange v k (transfer_currency p) poor r.target r.source) _
            (ask_exchange-Stays v k start (transfer_currency p) poor r.target r.source)
            (λ q. both_saved v k start d c q.source q.target (traded item p) m l))

  pub dm_vendor_sell_item-Stays :
      (sender vendor_id buyer_id item : String)
      → Still (dm_vendor_sell_item v k sender vendor_id buyer_id item)
  unfolding dm_vendor_sell_item
  dm_vendor_sell_item-Stays sender vendor_id buyer_id item =
      found-Stays v k start vendor_id _ (λ c l. found-Stays v k start buyer_id _ (λ d m.
        then_Still (pvp_gate_blocked v k sender c) _ (pvp_gate_blocked-Stays v k start sender c)
          (λ u.
            then_Still (item_price_copper v item_not_found k item) _
              (item_price_copper-Stays item_not_found item)
              (λ price. then_Still (parsed v c) _ (parsed-Stays v k start c) (λ a.
                then_Still (parsed v d) _ (parsed-Stays v k start d) (λ b.
                  trade-Stays c d a b item (copper_to_denominations price) vendor_sell_failed
                    insufficient_funds l m))))))

  pub dm_vendor_buy_item-Stays :
      (sender vendor_id seller_id item : String)
      → Still (dm_vendor_buy_item v k sender vendor_id seller_id item)
  unfolding dm_vendor_buy_item
  dm_vendor_buy_item-Stays sender vendor_id seller_id item =
      found-Stays v k start vendor_id _ (λ c l. found-Stays v k start seller_id _ (λ d m.
        then_Still (pvp_gate_blocked v k sender d) _ (pvp_gate_blocked-Stays v k start sender d)
          (λ u.
            then_Still (item_price_copper v item_not_found k item) _
              (item_price_copper-Stays item_not_found item)
              (λ price. then_Still (parsed v d) _ (parsed-Stays v k start d) (λ a.
                then_Still (parsed v c) _ (parsed-Stays v k start c) (λ b.
                  trade-Stays d c a b item (copper_to_denominations price) vendor_buy_failed
                    vendor_insufficient_funds m l))))))
