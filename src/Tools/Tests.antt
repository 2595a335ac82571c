-- ===== src/Tools/Tests.antt =====
-- The tools over a store in memory and an engine that always agrees.
use layforge.Prelude.{
  ℕ, suc, ◌<◌, String, str_eq, str_eq_iff, ◌≡◌, refl, ◌≢◌, true, false, arith, Option, none, some,
  List, [], ◌∷◌, if◌then◌else◌, pos, pos_part,
}
use layforge.Policy.{default_policy}
use layforge.Tools.Services.{Services, Character, approved, CharacterStatus, active, dead, Purse}
use layforge.Tools.Coins.{
  copper_to_denominations, denominations_to_copper, denominations_to_copper-copper_to_denominations,
}
use layforge.Tools.Actions.{
  refused, owner_exempt, allows_pvp, campaign_policy, World, character_not_found,
  campaign_character, ◌>>=◌,
}
use layforge.Tools.Call.{give_item, discard_item, call_dm_tool}
use layforge.Tools.Scoped.{Kept}
use layforge.Tools.Correct.{call_dm_tool-Kept}
use layforge.Tools.Failures.{call_dm_tool-Untouched}
use layforge.Tools.Secure.{gated_character, call_dm_tool-Shielded}

abbrev find : String → List Character → Option Character
find id [] = none
find id (c ∷ cs) = if str_eq c.id id then some c else find id cs

abbrev put : Character → List Character → List Character
put c [] = c ∷ []
put c (d ∷ ds) = if str_eq d.id c.id then c ∷ ds else d ∷ put c ds

find_id : (id : String) (s : List Character) (c : Character) → find id s ≡ some c → c.id ≡ id
find_id id [] c h = absurd (ground arith)
find_id id (d ∷ ds) c h = ground (arith, str_eq_iff d.id id, find_id id ds c)

find-put :
    (c : Character) (s : List Character) (id : String)
    → find id (put c s) ≡ (if str_eq c.id id then some c else find id s)
find-put c [] id = refl
find-put c (d ∷ ds) id =
    ground (arith, str_eq_iff d.id c.id, str_eq_iff d.id id, str_eq_iff c.id id, find-put c ds id)

always : true ≡ false → ⊥
always e = ground arith

abbrev coin : Purse
coin = record { copper = pos 1; silver = pos 0; gold = pos 0; platinum = pos 0 }

abbrev memory : Services
memory = record {
  Data = String;
  parse = λ s. some s;
  print = λ d. some d;
  Store = List Character;
  get_character = find;
  save_character = λ c s. (true, put c s);
  get-id = find_id;
  get-saved = λ c s id e. find-put c s id;
  get-unsaved = λ c s id e. absurd (always e);
  Outside = ℕ;
  now = λ o. (o, suc o);
  policy = λ k. none;
  adjusted = λ k n. n;
  Grid = Unit;
  grid_context = λ k a b. none;
  act = λ k r a o. (some (record { success = true; actor = a; result_message = "" }), o);
  exchange = λ k r a b o.
      (some (record { success = true; source = a; target = b; result_message = "" }), o);
  strike = λ k r a b g o. (
    some (record { success = true; actor = a; target = some b; hits = true; result_message = "" }),
    o,
  );
  cast_spell = λ k spell slot a b g o. (
    some (record { success = true; actor = a; target = b; hits = true; result_message = "" }),
    o,
  );
  get_character_status = λ a o. (some active, o);
  get_item_info = λ item o. (some (record { success = true; price = coin }), o);
  list_inventory = λ a o. (some (record { success = true; item_names = [] }), o);
}

abbrev hero : Character
hero = record {
  id = "hero";
  campaign_id = "k";
  owner_id = "ann";
  schema_version = "1";
  status = approved;
  character_data = "{}";
  updated_at = 0;
}

abbrev world : World memory
world = record { store = hero ∷ []; outside = 5 }

denominations_to_copper-copper_to_denominations_example :
    (denominations_to_copper (copper_to_denominations (pos 1234)) ≡ pos 1234)
    × (pos_part (copper_to_denominations (pos 1234)).copper < 10)
    × (pos_part (copper_to_denominations (pos 1234)).silver < 10)
    × (pos_part (copper_to_denominations (pos 1234)).gold < 10)
denominations_to_copper-copper_to_denominations_example =
    denominations_to_copper-copper_to_denominations 1234 (omega arith)

call_dm_tool-Kept_example :
    Kept "other"
      (find "hero" (hero ∷ []))
      (find "hero" (call_dm_tool memory "other" "ann" (discard_item "hero" "rope") world).1.store)
call_dm_tool-Kept_example =
    call_dm_tool-Kept memory "other" "ann" (discard_item "hero" "rope") world "hero"

not_there :
    (call_dm_tool memory "k" "ann" (discard_item "villain" "rope") world).0
    ≡ refused character_not_found
unfolding call_dm_tool campaign_character ◌>>=◌
not_there = refl

call_dm_tool-Untouched_example :
    (call_dm_tool memory "k" "ann" (discard_item "villain" "rope") world).1.store ≡ hero ∷ []
call_dm_tool-Untouched_example =
    call_dm_tool-Untouched memory "k" "ann" (discard_item "villain" "rope") world
      character_not_found not_there refl

from_hero : gated_character (give_item "hero" "villain" "rope") ≡ some "hero"
unfolding gated_character
from_hero = refl

not_bobs : owner_exempt "bob" hero ≡ false
unfolding owner_exempt
not_bobs = refl

no_pvp : allows_pvp (campaign_policy memory "k").pvp_policy ≡ false
unfolding allows_pvp campaign_policy default_policy
no_pvp = refl

active_alive : (o : Option CharacterStatus) → o ≡ some active → o ≢ some dead
active_alive o e f = ground arith

call_dm_tool-Shielded_example :
    (call_dm_tool memory "k" "bob" (give_item "hero" "villain" "rope") world).1.store ≡ hero ∷ []
call_dm_tool-Shielded_example =
    call_dm_tool-Shielded memory "k" "bob" (give_item "hero" "villain" "rope") world hero from_hero
      refl not_bobs no_pvp (λ a o e. active_alive (some active) refl)
