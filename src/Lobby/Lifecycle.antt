-- ===== src/Lobby/Lifecycle.antt =====
-- registry/internal/lobby: a listing from its registration to its removal.
use layforge.Prelude.{
  ◌≡◌, refl, String, str_eq, str_eq_iff, Option, none, some, if◌then◌else◌, ℤ, arith, lookup,
  insert, string_eq, lookup-insert, lookup-delete,
}
use layforge.Lobby.Store.{Listing, Store, create, heartbeat, remove}
use layforge.Lobby.Handlers.{
  Url, decoded, ListingBody, post_listing, put_listing, delete_listing, credentials, response,
  with_body, create_response, error_response, validate_fields, handle_create, handle_heartbeat,
  handle_remove, handle,
}

module _ (parse : String → Option Url) where
  -- What the 201 response says of the store.
  created_lookup :
      (ttl now : ℤ) (b : ListingBody) (i t j u : String) (s : Store)
      → (handle parse ttl now (post_listing (decoded b) (some i) (some t)) s).0
        ≡ response 201 (credentials j u)
      → (validate_fields parse b.fields ≡ none)
        × (i ≡ j)
        × (t ≡ u)
        × ((handle parse ttl now (post_listing (decoded b) (some i) (some t)) s).1
            ≡ insert i (record { id = i; token = t; fields = b.fields; last_heartbeat = now }) s)
  unfolding handle handle_create with_body create create_response
  created_lookup ttl now b i t j u s h = ground arith

  put_status :
      (ttl now : ℤ) (b : ListingBody) (i : String) (l : Listing) (s : Store)
      → validate_fields parse b.fields ≡ none
      → lookup i s ≡ some l
      → (handle parse ttl now (put_listing i (decoded b)) s).0.status
        ≡ (if str_eq l.token b.token then 200 else 403)
  unfolding handle handle_heartbeat with_body heartbeat error_response
  put_status ttl now b i l s v h = ground arith

  delete_status :
      (ttl now : ℤ) (u i : String) (l : Listing) (s : Store)
      → lookup i s ≡ some l
      → (handle parse ttl now (delete_listing i (decoded u)) s).0.status
        ≡ (if str_eq l.token u then 204 else 403)
  unfolding handle handle_remove with_body remove error_response
  delete_status ttl now u i l s h = ground arith

  delete_lookup :
      (ttl now : ℤ) (u i : String) (l : Listing) (s : Store)
      → lookup i s ≡ some l
      → l.token ≡ u
      → lookup i (handle parse ttl now (delete_listing i (decoded u)) s).1 ≡ none
  unfolding handle handle_remove with_body remove
  delete_lookup ttl now u i l s h e =
      ground (arith, str_eq_iff l.token u, str_eq_iff i i, lookup-delete i i s)

  put_unknown :
      (ttl now : ℤ) (b : ListingBody) (i : String) (s : Store)
      → validate_fields parse b.fields ≡ none
      → lookup i s ≡ none
      → (handle parse ttl now (put_listing i (decoded b)) s).0.status ≡ 404
  unfolding handle handle_heartbeat with_body heartbeat error_response
  put_unknown ttl now b i s v h = ground arith

  -- What a host can do with the credentials that registration gave it, in the store `s` after it: an
  -- update succeeds with the token and is refused with another, a removal likewise, and after
  -- the removal an update finds no listing.
  pub record Registered (ttl now : ℤ) (b : ListingBody) (id token : String) (s : Store)
      : Type 0 where
    pub updates :
        (u : String)
        → (handle parse ttl now (put_listing id (decoded (record b { token = u }))) s).0.status
          ≡ (if str_eq token u then 200 else 403)
    pub removes :
        (u : String)
        → (handle parse ttl now (delete_listing id (decoded u)) s).0.status
          ≡ (if str_eq token u then 204 else 403)
    pub forgotten :
        (later : ℤ)
        → (handle parse ttl later
            (put_listing id (decoded b))
            (handle parse ttl now (delete_listing id (decoded token)) s).1).0.status
          ≡ 404

  -- If registration answers 201 with an id and a token, then in the store after it an update of that
  -- id with the same fields is answered 200 if it carries the token and 403 if not, a removal 204
  -- or 403, and once the listing is removed with its token, that update is answered 404.
  pub handle-Registered :
      (ttl now : ℤ) (b : ListingBody) (i t id token : String) (s : Store)
      → (handle parse ttl now (post_listing (decoded b) (some i) (some t)) s).0
        ≡ response 201 (credentials id token)
      → Registered ttl now b id token
          (handle parse ttl now (post_listing (decoded b) (some i) (some t)) s).1
  handle-Registered ttl now b i t id token s h = record {
    updates = λ u. put_status ttl now (record b { token = u }) id l s' (c.0) at_id;
    removes = λ u. delete_status ttl now u id l s' at_id;
    forgotten = λ later.
        put_unknown ttl later b id (handle parse ttl now (delete_listing id (decoded token)) s').1
          c.0 (delete_lookup ttl now token id l s' at_id refl);
  }
    where
      c :
          (validate_fields parse b.fields ≡ none)
          × (i ≡ id)
          × (t ≡ token)
          × ((handle parse ttl now (post_listing (decoded b) (some i) (some t)) s).1
              ≡ insert i (record { id = i; token = t; fields = b.fields; last_heartbeat = now }) s)
      c = created_lookup ttl now b i t id token s h

      s' : Store
      s' = (handle parse ttl now (post_listing (decoded b) (some i) (some t)) s).1

      l : Listing
      l = record { id = id; token = token; fields = b.fields; last_heartbeat = now }

      at_id : lookup id s' ≡ some l
      at_id = ground (
        arith,
        c,
        str_eq_iff i id,
        lookup-insert i id (record { id = i; token = t; fields = b.fields; last_heartbeat = now })
            s,
      )
