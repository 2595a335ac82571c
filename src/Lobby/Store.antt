-- ===== src/Lobby/Store.antt =====
-- registry/internal/lobby/lobby.go. A moment and a duration are numbers of nanoseconds; the moment
-- of `time.Now()` and the outcome of `rand.Read` are arguments.
use layforge.Prelude.{
  ℕ, Bool, not, String, str_eq, Option, none, some, List, [], ◌∷◌, if◌then◌else◌, length, leb, ℤ,
  ltb_ℤ, ◌-ℤ◌, lookup, insert, delete, keep_if, string_eq,
}

pub record Fields : Type 0 where
  pub adventure_name : String
  pub min_level : ℤ
  pub max_level : ℤ
  pub players_joined : ℤ
  pub player_slots : ℤ
  pub password_protected : Bool
  pub join_url : String
  pub campaign_id : String

-- `Listing`, whose eight descriptive fields are those of `Fields`.
pub record Listing : Type 0 where
  pub id : String
  pub token : String
  pub fields : Fields
  pub last_heartbeat : ℤ

pub data StoreError : Type 0 where
  not_found token_mismatch store_full no_entropy : StoreError

abbrev pub max_listings : ℕ
max_listings = 10000

abbrev pub Store : Type 0
Store = List (String × Listing)

abbrev pub new_store : Store
new_store = []

-- What `Create` returns.
pub data Created : Type 0 where
  created : String → String → Created
  not_created : StoreError → Created

-- `Create`, where the two random identifiers are what `newRandomID` returned.
unfoldable pub create : Option String → Option String → ℤ → Fields → Store → Created × Store
create none _ now f s = (not_created no_entropy, s)
create (some id) none now f s = (not_created no_entropy, s)
create (some id) (some token) now f s =
    if leb max_listings (length s) then (not_created store_full, s) else (
      created id token,
      insert id (record { id = id; token = token; fields = f; last_heartbeat = now }) s,
    )

-- `none` is the nil error.
unfoldable pub heartbeat : String → String → ℤ → Fields → Store → Option StoreError × Store
heartbeat id token now f s = elim (lookup id s) [
  | none ↦ (some not_found, s)
  | some l ↦
      if not (str_eq l.token token)
      then (some token_mismatch, s)
      else (none, insert id (record l { fields = f; last_heartbeat = now }) s)
]

unfoldable pub remove : String → String → Store → Option StoreError × Store
remove id token s = elim (lookup id s) [
  | none ↦ (some not_found, s)
  | some l ↦ if not (str_eq l.token token) then (some token_mismatch, s) else (none, delete id s)
]

-- `LastHeartbeat.Before(cutoff)`, where the cutoff lies `ttl` before `now`.
unfoldable pub stale : ℤ → ℤ → Listing → Bool
stale now ttl l = ltb_ℤ l.last_heartbeat (now -ℤ ttl)

unfoldable pub blanked : Listing → Listing
blanked l = record l { token = "" }

unfoldable pub live : ℤ → ℤ → Store → List Listing
unfolding stale blanked
live now ttl [] = []
live now ttl ((_, l) ∷ s) = if stale now ttl l then live now ttl s else blanked l ∷ live now ttl s

unfoldable pub sweep : ℤ → ℤ → Store → Store
unfolding stale
sweep now ttl s = keep_if (λ l. not (stale now ttl l)) s
