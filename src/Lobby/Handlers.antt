-- ===== src/Lobby/Handlers.antt =====
-- registry/internal/lobby/handlers.go. What net/http hands over (the route, the body as
-- encoding/json decodes it) is the request, and what a handler writes is the response.
use layforge.Prelude.{
  ℕ, Bool, false, not, ◌||◌, String, str_eq, Option, none, some, List, map, if◌then◌else◌, ltb, ℤ,
  ◌&&◌, str_len,
}
use layforge.Lobby.Store.{
  Fields, Listing, StoreError, not_found, token_mismatch, store_full, Store, Created, created,
  not_created, create, heartbeat, remove, live,
}

abbrev pub max_adventure_name_len : ℕ
max_adventure_name_len = 200

abbrev pub max_join_url_len : ℕ
max_join_url_len = 500

abbrev pub max_campaign_id_len : ℕ
max_campaign_id_len = 200

-- What `url.Parse` finds in a URL that it accepts.
pub record Url : Type 0 where
  pub scheme : String
  pub host : String

-- Why a body is refused: `validateFields`, and the required fields of `create`.
pub data Complaint : Type 0 where
  name_too_long url_too_long campaign_too_long url_not_absolute missing_field : Complaint

-- What `decodeBody` finds.
pub data Decoded {ℓ} (A : Type ℓ) : Type ℓ where
  decoded : A → Decoded A
  too_large : Decoded A
  invalid_json : Decoded A

-- `listingRequestBody`.
pub record ListingBody : Type 0 where
  pub token : String
  pub fields : Fields

pub data Request : Type 0 where
  post_listing : Decoded ListingBody → Option String → Option String → Request
  put_listing : String → Decoded ListingBody → Request
  delete_listing : String → Decoded String → Request
  get_listings : Request

-- `listingResponseBody`.
pub record ListingView : Type 0 where
  pub id : String
  pub fields : Fields

pub data Payload : Type 0 where
  credentials : String → String → Payload
  open_listings : List ListingView → Payload
  bad_body : Payload
  complaint : Complaint → Payload
  store_error : StoreError → Payload
  empty : Payload

pub record Response : Type 0 where
  pub status : ℕ
  pub payload : Payload

abbrev pub response : ℕ → Payload → Response
response n p = record { status = n; payload = p }

unfoldable pub view : Listing → ListingView
view l = record { id = l.id; fields = l.fields }

-- `decodeBody`: the handler goes on with what was decoded.
unfoldable pub with_body :
    {A : Type 0} → Decoded A → Store → (A → Response × Store) → Response × Store
with_body (decoded b) s k = k b
with_body too_large s k = (response 413 bad_body, s)
with_body invalid_json s k = (response 400 bad_body, s)

unfoldable pub create_response : Created → Response
create_response (created id token) = response 201 (credentials id token)
create_response (not_created store_full) = response 503 (store_error store_full)
create_response (not_created e) = response 500 (store_error e)

-- The switch after `Heartbeat` and `Remove`, where `n` is the status of a success.
unfoldable pub error_response : ℕ → Option StoreError → Response
error_response n none = response n empty
error_response n (some not_found) = response 404 (store_error not_found)
error_response n (some token_mismatch) = response 403 (store_error token_mismatch)
error_response n (some e) = response 500 (store_error e)

-- `parse` is `url.Parse`.
module _ (parse : String → Option Url) where
  unfoldable pub is_absolute : String → Bool
  is_absolute u = elim (parse u) [
    | none ↦ false
    | some v ↦ not (str_eq v.scheme "" || str_eq v.host "")
  ]

  -- `none` is the empty message.
  unfoldable pub validate_fields : Fields → Option Complaint
  unfolding is_absolute
  validate_fields f =
      if ltb max_adventure_name_len (str_len f.adventure_name)
      then some name_too_long
      else if ltb max_join_url_len (str_len f.join_url)
      then some url_too_long
      else if ltb max_campaign_id_len (str_len f.campaign_id)
      then some campaign_too_long
      else if not (str_eq f.join_url "") && not (is_absolute f.join_url)
      then some url_not_absolute
      else none

  unfoldable pub handle_create :
      ℤ → Decoded ListingBody → Option String → Option String → Store → Response × Store
  unfolding validate_fields with_body create_response
  handle_create now b id token s = with_body b s λ body.
      let f = body.fields in
      if str_eq f.adventure_name "" || str_eq f.join_url "" || str_eq f.campaign_id ""
      then (response 400 (complaint missing_field), s)
      else elim (validate_fields f) [
        | some c ↦ (response 400 (complaint c), s)
        | none ↦ let (r, s') = create id token now f s in (create_response r, s')
      ]

  unfoldable pub handle_heartbeat : ℤ → String → Decoded ListingBody → Store → Response × Store
  unfolding validate_fields with_body error_response
  handle_heartbeat now id b s = with_body b s λ body. elim (validate_fields body.fields) [
    | some c ↦ (response 400 (complaint c), s)
    | none ↦ let (e, s') = heartbeat id body.token now body.fields s in (error_response 200 e, s')
  ]

  unfoldable pub handle_remove : String → Decoded String → Store → Response × Store
  unfolding with_body error_response
  handle_remove id b s =
      with_body b s λ token. let (e, s') = remove id token s in (error_response 204 e, s')

  unfoldable pub handle_list : ℤ → ℤ → Store → Response × Store
  unfolding view
  handle_list now ttl s = (response 200 (open_listings (map view (live now ttl s))), s)

  -- `NewHandler`: the mux sends each method and path to its handler.
  unfoldable pub handle : ℤ → ℤ → Request → Store → Response × Store
  unfolding handle_create handle_heartbeat handle_remove handle_list
  handle ttl now (post_listing b id token) s = handle_create now b id token s
  handle ttl now (put_listing id b) s = handle_heartbeat now id b s
  handle ttl now (delete_listing id b) s = handle_remove id b s
  handle ttl now get_listings s = handle_list now ttl s
