-- ===== src/Tools/Actions.antt =====
-- master/internal/server/dm_tools.go and vendor.go: what the tools share. A tool reads and changes the
-- world, and gives a value or refuses with a code; what it wrote before a refusal stays written.
use layforge.Prelude.{
  ℕ, String, str_eq, Bool, true, false, not, ◌||◌, Option, none, some, List, if◌then◌else◌,
}
use layforge.Policy.{
  PvpPolicy, pvp_unspecified, pve_only, pvp_allowed, CampaignPolicy, default_policy,
}
use layforge.Tools.Services.{
  Services, Character, ReviewStatus, approved, Purse, Request, Exchange, Actor, Acted, Exchanged,
  CharacterStatus, dead,
}

-- The reason codes of the results.
pub data Code : Type 0 where
  unknown_tool invalid_arguments character_not_found character_not_approved internal_error : Code
  engine_error pvp_blocked amount_out_of_range item_not_found insufficient_funds : Code
  vendor_insufficient_funds effect_failed cast_spell_failed attack_failed grapple_failed : Code
  shove_failed equip_failed unequip_failed pack_failed draw_failed receive_failed : Code
  discard_failed give_failed add_currency_failed transfer_currency_failed vendor_sell_failed : Code
  vendor_buy_failed list_inventory_failed : Code

pub data Reply (A : Type 0) : Type 0 where
  refused : Code → Reply A
  ok : A → Reply A

-- What a tool tells the model, but for the fixed parts of its text.
pub data Answer : Type 0 where
  told : String → Answer
  applied : Option CharacterStatus → Answer
  priced : String → Purse → Answer
  listed : List (String × Purse) → Answer
  traded : String → Purse → Answer

-- `masterSenderID`
abbrev pub master_sender_id : String
master_sender_id = "master"

-- Whether the policy lets players act against each other: only pvp_allowed does.
unfoldable pub allows_pvp : PvpPolicy → Bool
allows_pvp pvp_allowed = true
allows_pvp pve_only = false
allows_pvp pvp_unspecified = false

-- The owners that the PvP gates pass: none, the Dungeon Master, and the acting sender.
unfoldable pub owner_exempt : String → Character → Bool
owner_exempt sender c =
    str_eq c.owner_id "" || str_eq c.owner_id master_sender_id || str_eq c.owner_id sender

unfoldable pub is_approved : ReviewStatus → Bool
is_approved approved = true
is_approved _ = false

unfoldable pub is_dead : CharacterStatus → Bool
is_dead dead = true
is_dead _ = false

-- A step on a world, which gives a value or refuses.
abbrev pub Step : Type 0 → Type 0 → Type 0
Step W A = W → Reply A × W

module _ {W : Type 0} where
  abbrev pub give : {A : Type 0} → A → Step W A
  give a w = (ok a, w)

  abbrev pub refuse : {A : Type 0} → Code → Step W A
  refuse c w = (refused c, w)

  module _ {A B : Type 0} where
    infixl 5 ◌>>=◌
    unfoldable pub ◌>>=◌ : Step W A → (A → Step W B) → Step W B
    ◌>>=◌ m f w = let (r, w') = m w in elim r [ refused c ↦ (refused c, w') | ok a ↦ f a w' ]

module _ (v : Services) where
  pub record World : Type 0 where
    pub store : v.Store
    pub outside : v.Outside

  abbrev pub Tool : Type 0 → Type 0
  Tool A = Step World A

  -- A call of the System Engine, where `none` is an error of the call.
  abbrev pub call : {A : Type 0} → (v.Outside → Option A × v.Outside) → Tool A
  call f w =
      let (answer, o) = f w.outside in
      elim answer [
        | none ↦ (refused engine_error, record w { outside = o })
        | some a ↦ (ok a, record w { outside = o })
      ]

  -- `campaignPolicy`
  unfoldable pub campaign_policy : String → CampaignPolicy
  unfolding default_policy
  campaign_policy campaign = elim (v.policy campaign) [ none ↦ default_policy | some p ↦ p ]

  -- `campaignCharacter`, whose errors all tools report alike.
  unfoldable pub campaign_character : String → String → Tool Character
  campaign_character campaign id w = elim (v.get_character id w.store) [
    | none ↦ (refused character_not_found, w)
    | some c ↦
        if not (str_eq c.campaign_id campaign) then (refused character_not_found, w) else (ok c, w)
  ]

  -- The stored data as protojson reads it.
  unfoldable pub parsed : Character → Tool (Actor v.Data)
  parsed c w = elim (v.parse c.character_data) [
    | none ↦ (refused internal_error, w)
    | some d ↦
        (ok (record { actor_id = c.id; character_data = d; schema_version = c.schema_version }), w)
  ]

  -- The character with the new data.
  unfoldable pub updated : Character → String → ℕ → Character
  updated c text t = record c { character_data = text; updated_at = t }

  -- `saveUpdatedCharacter`
  unfoldable pub save_updated_character : Character → Actor v.Data → Tool Unit
  unfolding updated
  save_updated_character c a w = elim (v.print a.character_data) [
    | none ↦ (refused internal_error, w)
    | some text ↦
        let (t, o) = v.now w.outside in
        let (saved, s) = v.save_character (updated c text t) w.store in
        (if saved then ok tt else refused internal_error, record { store = s; outside = o })
  ]

  -- `characterMayAct`
  unfoldable pub character_may_act : Character → Tool Unit
  unfolding is_approved
  character_may_act c =
      if str_eq c.owner_id master_sender_id
      then give tt
      else if not (is_approved c.status)
      then refuse character_not_approved
      else give tt

  -- `characterIsDead`, whose errors `pvpGateBlocked` reports as the engine's.
  unfoldable pub character_is_dead : Character → Tool Bool
  unfolding is_dead
  character_is_dead c = elim (v.parse c.character_data) [
    | none ↦ refuse engine_error
    | some d ↦ (do
      status ← call (
          v.get_character_status
            (record { actor_id = c.id; character_data = d; schema_version = c.schema_version }))
      give (is_dead status))
  ]

  -- `pvpGateBlocked`
  unfoldable pub pvp_gate_blocked : String → String → Character → Tool Unit
  unfolding owner_exempt character_is_dead allows_pvp campaign_policy
  pvp_gate_blocked campaign sender source = if owner_exempt sender source then give tt else (do
    gone ← character_is_dead source
    if gone
        then give tt
        else if allows_pvp (campaign_policy campaign).pvp_policy
        then give tt
        else refuse pvp_blocked)

  -- A successful response to a request for one actor, or a refusal with the tool's code.
  unfoldable pub ask : String → Request → Code → Actor v.Data → Tool (Acted v.Data)
  ask campaign request failed a = do
    r ← call (v.act campaign request a)
    if not r.success then refuse failed else give r

  unfoldable pub ask_exchange :
      String → Exchange → Code → Actor v.Data → Actor v.Data → Tool (Exchanged v.Data)
  ask_exchange campaign request failed source target = do
    r ← call (v.exchange campaign request source target)
    if not r.success then refuse failed else give r
