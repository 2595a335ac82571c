-- ===== src/Lobby/Tests.antt =====
-- The directory of open campaigns on small stores.
use layforge.Prelude.{
  ◌-ℤ◌, ◌≤ℤ◌, ◌≡◌, refl, ◌↔◌, true, String, str_eq_iff, Option, some, [], ◌∷◌, ℤ, pos, arith, ◌∈◌,
  lookup, string_eq, IsMap,
}
use layforge.Lobby.Store.{Fields, Listing, Store, new_store, create, live, sweep, blanked}
use layforge.Lobby.Handlers.{
  Url, decoded, ListingBody, post_listing, delete_listing, credentials, response, with_body,
  create_response, validate_fields, handle_create, handle_list, handle,
}
use layforge.Lobby.Keyed.{Keyed, handle-Keyed}
use layforge.Lobby.Access.{Entitled, handle-Entitled}
use layforge.Lobby.Lifecycle.{Registered, handle-Registered}
use layforge.Lobby.Public.{
  SameButTokens, handle_list-SameButTokens, live-sweep, lookup-sweep, mem-live_iff, Shown,
}

abbrev parse_ws : String → Option Url
parse_ws u = some (record { scheme = "wss"; host = "table.example" })

abbrev crypt : Fields
crypt = record {
  adventure_name = "Crypt";
  min_level = pos 1;
  max_level = pos 4;
  players_joined = pos 2;
  player_slots = pos 5;
  password_protected = true;
  join_url = "wss://table.example";
  campaign_id = "c1";
}

abbrev crypt_at : String → ℤ → Listing
crypt_at token now = record { id = "a"; token = token; fields = crypt; last_heartbeat = now }

abbrev one_listing : Store
one_listing = ("a", crypt_at "secret" (pos 100)) ∷ []

abbrev crypt_body : String → ListingBody
crypt_body token = record { token = token; fields = crypt }

empty-Keyed : Keyed new_store
unfolding IsMap lookup
empty-Keyed = record { is_map = tt; capped = omega arith; own_id = λ i l h. absurd (ground arith) }

handle-Keyed_example :
    Keyed
      (handle parse_ws
        (pos 60)
        (pos 100)
        (post_listing (decoded (crypt_body "")) (some "a") (some "secret"))
        new_store).1
handle-Keyed_example =
    handle-Keyed parse_ws (pos 60) (pos 100)
      (post_listing (decoded (crypt_body "")) (some "a") (some "secret")) new_store empty-Keyed

wrong_token : ¬ (Entitled "a" "secret" (delete_listing "a" (decoded "guess")))
unfolding Entitled
wrong_token (_, e) = ground (arith, str_eq_iff "guess" "secret")

handle-Entitled_example :
    lookup "a"
      (handle parse_ws (pos 60) (pos 101) (delete_listing "a" (decoded "guess")) one_listing).1
    ≡ some (crypt_at "secret" (pos 100))
unfolding lookup
handle-Entitled_example =
    handle-Entitled parse_ws (pos 60) (pos 101) (delete_listing "a" (decoded "guess")) one_listing
      "a" (crypt_at "secret" (pos 100)) refl wrong_token

registration :
    (handle parse_ws
      (pos 60)
      (pos 100)
      (post_listing (decoded (crypt_body "")) (some "a") (some "secret"))
      new_store).0
    ≡ response 201 (credentials "a" "secret")
unfolding handle handle_create with_body create create_response validate_fields
registration = refl

handle-Registered_example :
    Registered parse_ws
      (pos 60)
      (pos 100)
      (crypt_body "")
      "a"
      "secret"
      (handle parse_ws
        (pos 60)
        (pos 100)
        (post_listing (decoded (crypt_body "")) (some "a") (some "secret"))
        new_store).1
handle-Registered_example =
    handle-Registered parse_ws (pos 60) (pos 100) (crypt_body "") "a" "secret" "a" "secret"
      new_store registration

handle_list-SameButTokens_example :
    (handle_list parse_ws (pos 120) (pos 60) one_listing).0
    ≡ (handle_list parse_ws (pos 120) (pos 60) (("a", crypt_at "other" (pos 100)) ∷ [])).0
unfolding SameButTokens
handle_list-SameButTokens_example =
    handle_list-SameButTokens parse_ws (pos 120) (pos 60) one_listing
      (("a", crypt_at "other" (pos 100)) ∷ []) same
  where
    same : SameButTokens one_listing (("a", crypt_at "other" (pos 100)) ∷ [])
    same = (refl, refl, tt)

live-sweep_example :
    live (pos 170) (pos 60) (sweep (pos 165) (pos 60) one_listing)
    ≡ live (pos 170) (pos 60) one_listing
live-sweep_example = live-sweep (pos 165) (pos 170) (pos 60) one_listing (omega arith)

lookup-sweep_example :
    (lookup "a" (sweep (pos 160) (pos 60) one_listing) ≡ some (crypt_at "secret" (pos 100))) ↔ (
      (lookup "a" one_listing ≡ some (crypt_at "secret" (pos 100)))
      × (pos 160 -ℤ pos 60 ≤ℤ pos 100))
unfolding IsMap lookup
lookup-sweep_example =
    lookup-sweep (pos 160) (pos 60) one_listing "a" (crypt_at "secret" (pos 100)) (refl, tt)

mem-live_iff_example :
    (blanked (crypt_at "secret" (pos 100)) ∈ live (pos 120) (pos 60) one_listing)
    ↔ Shown (pos 120) (pos 60) one_listing (blanked (crypt_at "secret" (pos 100)))
unfolding IsMap lookup
mem-live_iff_example =
    mem-live_iff (pos 120) (pos 60) one_listing (refl, tt) (blanked (crypt_at "secret" (pos 100)))
