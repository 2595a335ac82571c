-- ===== src/Combat/Tests.antt =====
-- A combat of two characters against a small engine.
use layforge.Prelude.{
  ◌≡◌, ◌≢◌, ◌↔◌, ◌⊎◌, Bool, true, false, String, str_eq, none, some, List, [], ◌∷◌, arith,
  if◌then◌else◌, ℤ, pos, lookup, string_eq,
}
use layforge.Combat.Engine.{Character, active, dead, Engine}
use layforge.Combat.Turns.{
  TurnOrder, ok, panicked, Server, start_combat, advance_turn, end_combat, enforce_turn_order,
  Rolled, sort_rolls,
}
use layforge.Combat.Ordering.{Descending, with_total, sort_rolls_lem}
use layforge.Combat.Orders.{AllSeated}
use layforge.Combat.Seated.{Fine, CarriesOutcome, HasTurn, combat-Fine, enforce_turn_order_lem}

abbrev character : String → Character
character id = record {
  id = id;
  campaign_id = "c";
  owner_id = "p";
  is_approved = true;
  character_data = "{}";
}

-- Everyone but the ghost lives and can act, and the rogue rolls highest.
abbrev small_engine : Engine
small_engine = record {
  World = Bool;
  parses = λ d. true;
  get_character = λ id w. some (character id);
  save_character = λ c w. (true, w);
  get_character_status = λ c w. (some (if str_eq c.id "ghost" then dead else active), w);
  start_turn = λ c w. (some (record { success = true; actor = none; death_save = false }), w);
  get_available_actions =
      λ c w. (some (record { success = true; can_act = true; cannot_act_reason = "" }), w);
  resolve_check = λ c w. (
    some
        (record { success = true; outcome = some (if str_eq c.id "rogue" then pos 18 else pos 9) }),
    w,
  );
}

abbrev idle : Server small_engine
idle = record { turn_orders = []; combat_maps = []; persisted = none; world = true; sent = [] }

abbrev fighting : TurnOrder
fighting = record {
  is_active = true;
  order = "rogue" ∷ "orc" ∷ [];
  current_index = pos 1;
  round = pos 2;
}

abbrev busy : Server small_engine
busy = record idle { turn_orders = ("c", fighting) ∷ [] }

busy-AllSeated : AllSeated busy.turn_orders
unfolding lookup
busy-AllSeated c t e = ground arith

small_engine-CarriesOutcome : CarriesOutcome small_engine
small_engine-CarriesOutcome c w r e s n = ground arith

combat-Fine_example :
    Fine small_engine (start_combat small_engine "c" ("orc" ∷ "ghost" ∷ "rogue" ∷ []) busy)
    × Fine small_engine (advance_turn small_engine "c" busy)
    × AllSeated (end_combat small_engine "c" busy).1.turn_orders
combat-Fine_example =
    combat-Fine small_engine "c" ("orc" ∷ "ghost" ∷ "rogue" ∷ []) busy small_engine-CarriesOutcome
      busy-AllSeated

enforce_turn_order_lem_example :
    (enforce_turn_order small_engine "c" "rogue" busy ≢ panicked)
    × ((enforce_turn_order small_engine "c" "rogue" busy ≡ ok true)
        ↔ ((lookup "c" busy.turn_orders ≡ none) ⊎ HasTurn small_engine "c" "rogue" busy))
enforce_turn_order_lem_example = enforce_turn_order_lem small_engine "c" "rogue" busy busy-AllSeated

abbrev two_rolls : List Rolled
two_rolls =
    record { character_id = "orc"; total = pos 9 }
    ∷ record { character_id = "rogue"; total = pos 18 }
    ∷ []

sort_rolls_lem_example :
    Descending (sort_rolls two_rolls)
    × ((n : ℤ) → with_total n (sort_rolls two_rolls) ≡ with_total n two_rolls)
sort_rolls_lem_example = sort_rolls_lem two_rolls
