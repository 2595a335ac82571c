-- ===== src/Tools/Services.antt =====
-- What the tools call: the character store, the System Engine over gRPC, protojson and the clock,
-- as one interface; and the messages between them (master/internal/store/character.go).
use layforge.Prelude.{
  ℕ, String, str_eq, ◌≡◌, Bool, true, false, Option, some, List, if◌then◌else◌, ℤ,
}
use layforge.Policy.{CampaignPolicy}

pub data ReviewStatus : Type 0 where
  status_unspecified pending_review approved rejected : ReviewStatus

-- `store.Character`, but for CreatedAt, which the tools never read or write.
pub record Character : Type 0 where
  pub id : String
  pub campaign_id : String
  pub owner_id : String
  pub schema_version : String
  pub status : ReviewStatus
  pub character_data : String
  pub updated_at : ℕ

-- An amount of coins, each an int32.
pub record Purse : Type 0 where
  pub copper : ℤ
  pub silver : ℤ
  pub gold : ℤ
  pub platinum : ℤ

pub data EquipmentSlot : Type 0 where
  main_hand off_hand armor shield head neck shoulders hands waist feet ring_1 ring_2 back :
      EquipmentSlot

pub data AttackKind : Type 0 where
  melee ranged offhand : AttackKind

pub data ShoveEffect : Type 0 where
  prone push : ShoveEffect

pub data CharacterStatus : Type 0 where
  active unconscious dying stable dead unspecified : CharacterStatus

-- The requests that change one actor.
pub data Request : Type 0 where
  apply_effect : String → ℤ → String → Request
  equip_item : String → EquipmentSlot → Request
  unequip_item : EquipmentSlot → Request
  stow_item : String → String → Request
  draw_item add_item remove_item : String → Request
  add_currency remove_currency : Purse → Request

-- The requests that move something from a source to a target.
pub data Exchange : Type 0 where
  transfer_item : String → Exchange
  transfer_currency : Purse → Exchange

-- The requests of one actor against another.
pub data Strike : Type 0 where
  attack : AttackKind → Strike
  grapple : Strike
  shove : ShoveEffect → Strike

-- `Actor`, over the type of its parsed data.
pub record Actor (D : Type 0) : Type 0 where
  pub actor_id : String
  pub character_data : D
  pub schema_version : String

-- The responses. A successful one carries the changed actors; the target of a strike or a spell may
-- be missing.
pub record Acted (D : Type 0) : Type 0 where
  pub success : Bool
  pub actor : Actor D
  pub result_message : String

pub record Exchanged (D : Type 0) : Type 0 where
  pub success : Bool
  pub source : Actor D
  pub target : Actor D
  pub result_message : String

-- `hits` is TargetDamaged, Grappled or Shoved.
pub record Struck (D : Type 0) : Type 0 where
  pub success : Bool
  pub actor : Actor D
  pub target : Option (Actor D)
  pub hits : Bool
  pub result_message : String

-- `GetItemInfoResponse`
pub record ItemInfo : Type 0 where
  pub success : Bool
  pub price : Purse

-- `ListInventoryResponse`
pub record Inventory : Type 0 where
  pub success : Bool
  pub item_names : List String

-- `none` is an error of a call. `policy` is the configured provider's answer, and `adjusted` the price
-- in copper after the campaign's multiplier, rounded.
pub record Services : Type 1 where
  pub Data : Type 0
  pub parse : String → Option Data
  pub print : Data → Option String
  pub Store : Type 0
  pub get_character : String → Store → Option Character
  pub save_character : Character → Store → Bool × Store
  pub get-id : (id : String) (s : Store) (c : Character) → get_character id s ≡ some c → c.id ≡ id
  pub get-saved :
      (c : Character) (s : Store) (id : String)
      → (save_character c s).0 ≡ true
      → get_character id (save_character c s).1
        ≡ (if str_eq c.id id then some c else get_character id s)
  pub get-unsaved :
      (c : Character) (s : Store) (id : String)
      → (save_character c s).0 ≡ false
      → get_character id (save_character c s).1 ≡ get_character id s
  pub Outside : Type 0
  pub now : Outside → ℕ × Outside
  pub policy : String → Option CampaignPolicy
  pub adjusted : String → ℤ → ℤ
  pub Grid : Type 0
  pub grid_context : String → String → String → Option Grid
  pub act : String → Request → Actor Data → Outside → Option (Acted Data) × Outside
  pub exchange :
      String → Exchange → Actor Data → Actor Data → Outside → Option (Exchanged Data) × Outside
  pub strike :
      String
      → Strike
      → Actor Data
      → Actor Data
      → Option Grid
      → Outside
      → Option (Struck Data) × Outside
  pub cast_spell :
      String
      → String
      → ℤ
      → Actor Data
      → Option (Actor Data)
      → Option Grid
      → Outside
      → Option (Struck Data) × Outside
  pub get_character_status : Actor Data → Outside → Option CharacterStatus × Outside
  pub get_item_info : String → Outside → Option ItemInfo × Outside
  pub list_inventory : Actor Data → Outside → Option Inventory × Outside
