-- ===== src/Tools/Secure.antt =====
-- master/internal/server/dm_tools.go and vendor.go: the PvP gates that come before the engine's call.
use layforge.Prelude.{
  String, str_eq, ◌≡◌, refl, sym, subst, ap, ◌∙◌, ◌≢◌, inl, inr, Bool, true, false, not, Bool-cases,
  arith, Option, none, some, if◌then◌else◌, ℤ, ltb_ℤ, ◌||◌,
}
use layforge.Tools.Services.{
  Services, Character, Actor, Purse, Exchange, CharacterStatus, dead, transfer_item,
  transfer_currency, active, unconscious, dying, stable, unspecified,
}
use layforge.Tools.Actions.{
  Code, engine_error, character_not_found, invalid_arguments, pvp_blocked, amount_out_of_range,
  give_failed, transfer_currency_failed, Reply, refused, ok, World, Tool, give, refuse, call, ◌>>=◌,
  campaign_character, parsed, character_is_dead, pvp_gate_blocked, is_dead, owner_exempt,
  allows_pvp, campaign_policy,
}
use layforge.Tools.Items.{
  dm_spend_currency, effect_gate, dm_apply_effect, hand_over, dm_give_item, dm_transfer_currency,
  max_effect_amount, min_effect_amount,
}
use layforge.Tools.Vendor.{dm_vendor_sell_item, dm_vendor_buy_item}
use layforge.Tools.Call.{
  CharacterToolCall, unknown, unreadable, apply_effect, cast_spell, melee_attack, ranged_attack,
  offhand_attack, grapple, shove, equip_item, unequip_item, pack_item, draw_item, receive_item,
  discard_item, give_item, add_currency, spend_currency, check_item_price, list_vendor_inventory,
  vendor_sell_item, vendor_buy_item, call_dm_tool,
}
use layforge.Tools.Scoped.{OnOk}
use layforge.Tools.Early.{Early, campaign_character-Early, parsed-Early, pvp_gate_blocked-Early}

-- The character that the PvP gate of a tool is about, for the tools that ask it before any change is
-- made: the
-- one that `apply_effect` damages, the giver of an item, the source of a transfer, the payer of
-- `spend_currency`, the vendor that sells an item and the seller that a vendor buys from. A vendor's
-- customer and paymaster, the target of a transfer and the character of `discard_item` are not gated.
unfoldable pub gated_character : CharacterToolCall → Option String
gated_character (apply_effect id effect n damage) = if str_eq effect "damage" then some id else none
gated_character (give_item id target item) = some id
gated_character (spend_currency id p) = some id
gated_character (CharacterToolCall.transfer_currency id target p) = some id
gated_character (vendor_sell_item vendor buyer item) = some vendor
gated_character (vendor_buy_item vendor seller item) = some seller
gated_character _ = none

abbrev IsRefused : {A : Type 0} → Reply A → Type 0
IsRefused (refused c) = Unit
IsRefused (ok a) = ⊥

module _ (v : Services) (k sender : String) (c : Character) where
  -- With this character stored, the step leaves the store.
  abbrev Quiet : {A : Type 0} → Tool v A → Type 0
  Quiet m = (w : World v) → v.get_character c.id w.store ≡ some c → (m w).1.store ≡ w.store

  bind-Quiet :
      {A B : Type 0} (m : Tool v A) (f : A → Tool v B)
      → Early v m
      → ((a : A) → Quiet (f a))
      → Quiet (m >>= f)
  unfolding ◌>>=◌
  bind-Quiet {A} {B} m f h g w s = go (m w) (h w)
    where
      go :
          (r : Reply A × World v)
          → r.1.store ≡ w.store
          → (elim r.0 as (λ x. Reply B × World v) [
            | refused d ↦ (refused d, r.1)
            | ok a ↦ f a r.1
          ]).1.store
            ≡ w.store
      go (refused d, w') e = e
      go (ok a, w') e = g a w' (subst (λ z. v.get_character c.id z ≡ some c) (sym e) s) ∙ e

  -- A step that refuses keeps the rest from running.
  stop-Quiet :
      {A B : Type 0} (m : Tool v A) (f : A → Tool v B)
      → Early v m
      → ((w : World v) → IsRefused (m w).0)
      → Quiet (m >>= f)
  unfolding ◌>>=◌
  stop-Quiet {A} {B} m f h g w s = go (m w) (h w) (g w)
    where
      go :
          (r : Reply A × World v)
          → r.1.store ≡ w.store
          → IsRefused r.0
          → (elim r.0 as (λ x. Reply B × World v) [
            | refused d ↦ (refused d, r.1)
            | ok a ↦ f a r.1
          ]).1.store
            ≡ w.store
      go (refused d, w') e u = e
      go (ok a, w') e u = absurd u

  -- The lookup of this character finds it.
  found-Quiet :
      {B : Type 0} (f : Character → Tool v B)
      → Quiet (f c)
      → Quiet (campaign_character v k c.id >>= f)
  unfolding ◌>>=◌ campaign_character
  found-Quiet {B} f h w s =
      subst (λ z. (next z).1.store ≡ w.store) (sym looked_up) (go (str_eq c.campaign_id k))
    where
      answer : Bool → Reply Character × World v
      answer b = if not b then (refused character_not_found, w) else (ok c, w)

      next : Reply Character × World v → Reply B × World v
      next r = elim r.0 [ refused d ↦ (refused d, r.1) | ok a ↦ f a r.1 ]

      answers : Option Character → Reply Character × World v
      answers o = elim o [
        | none ↦ (refused character_not_found, w)
        | some d ↦
            if not (str_eq d.campaign_id k) then (refused character_not_found, w) else (ok d, w)
      ]

      looked_up : answers (v.get_character c.id w.store) ≡ answer (str_eq c.campaign_id k)
      looked_up = ap answers s

      go : (b : Bool) → (next (answer b)).1.store ≡ w.store
      go true = h w s
      go false = refl

  if-Quiet :
      {A : Type 0} (b : Bool) (m n : Tool v A) → Quiet m → Quiet n → Quiet (if b then m else n)
  if-Quiet true m n h g = h
  if-Quiet false m n h g = g

  module _ (other : owner_exempt sender c ≡ false)
      (closed : allows_pvp (campaign_policy v k).pvp_policy ≡ false)
      (alive : (a : Actor v.Data) (o : v.Outside)
        → a.actor_id ≡ c.id
        → (v.get_character_status a o).0 ≢ some dead) where
    abbrev verdict : Bool → Tool v Unit
    verdict gone =
        if gone
        then give tt
        else if allows_pvp (campaign_policy v k).pvp_policy
        then give tt
        else refuse pvp_blocked

    not_dead : (s : CharacterStatus) → (some s ≢ some dead) → is_dead s ≡ false
    unfolding is_dead
    not_dead active n = refl
    not_dead unconscious n = refl
    not_dead dying n = refl
    not_dead stable n = refl
    not_dead dead n = absurd (n refl)
    not_dead unspecified n = refl

    -- An engine that never calls the character dead.
    judged :
        (f : v.Outside → Option CharacterStatus × v.Outside) (w : World v)
        → ((f w.outside).0 ≢ some dead)
        → OnOk (λ b. b ≡ false) ((call v f >>= λ status. give (is_dead status)) w).0
    unfolding ◌>>=◌
    judged f w n = go (f w.outside) n
      where
        called : Option CharacterStatus × v.Outside → Reply CharacterStatus × World v
        called r = elim r.0 [
          | none ↦ (refused engine_error, record w { outside = r.1 })
          | some a ↦ (ok a, record w { outside = r.1 })
        ]

        concluded : Reply CharacterStatus × World v → Reply Bool × World v
        concluded r = elim r.0 [ refused d ↦ (refused d, r.1) | ok a ↦ (ok (is_dead a), r.1) ]

        go :
            (r : Option CharacterStatus × v.Outside)
            → (r.0 ≢ some dead)
            → OnOk (λ b. b ≡ false) (concluded (called r)).0
        go (none, o) n = tt
        go (some s, o) n = not_dead s n

    character_is_dead_lem : (w : World v) → OnOk (λ b. b ≡ false) (character_is_dead v c w).0
    unfolding character_is_dead
    character_is_dead_lem w = go (v.parse c.character_data)
      where
        whole : v.Data → Actor v.Data
        whole d = record { actor_id = c.id; character_data = d; schema_version = c.schema_version }

        run : Option v.Data → Tool v Bool
        run o = elim o [
          | none ↦ refuse engine_error
          | some d ↦ call v (v.get_character_status (whole d)) >>= λ status. give (is_dead status)
        ]

        go : (o : Option v.Data) → OnOk (λ b. b ≡ false) (run o w).0
        go none = tt
        go (some d) = judged (v.get_character_status (whole d)) w (alive (whole d) w.outside refl)

    refuses :
        (m : Tool v Bool) (w : World v)
        → OnOk (λ b. b ≡ false) (m w).0
        → IsRefused ((m >>= verdict) w).0
    unfolding ◌>>=◌
    refuses m w h = go (m w) h
      where
        go :
            (r : Reply Bool × World v)
            → OnOk (λ b. b ≡ false) r.0
            → IsRefused
                (elim r.0 as (λ x. Reply Unit × World v) [
                  | refused d ↦ (refused d, r.1)
                  | ok a ↦ verdict a r.1
                ]).0
        go (refused d, w') h = tt
        go (ok true, w') h = absurd (ground arith)
        go (ok false, w') h = rw closed tt

    gate-IsRefused : (w : World v) → IsRefused (pvp_gate_blocked v k sender c w).0
    unfolding pvp_gate_blocked
    gate-IsRefused w = rw other (refuses (character_is_dead v c) w (character_is_dead_lem w))

    gated : {B : Type 0} (f : Unit → Tool v B) → Quiet (pvp_gate_blocked v k sender c >>= f)
    gated f =
        stop-Quiet (pvp_gate_blocked v k sender c) f (pvp_gate_blocked-Early v k sender c)
          gate-IsRefused

    dm_spend_currency-Quiet : (p : Purse) → Quiet (dm_spend_currency v k sender c.id p)
    unfolding dm_spend_currency
    dm_spend_currency-Quiet p =
        found-Quiet _ (bind-Quiet (parsed v c) _ (parsed-Early v c) (λ a. gated _))

    hand_over-Quiet :
        (target_id : String) (request : Exchange) (failed : Code)
        → Quiet (hand_over v k sender c.id target_id request failed)
    unfolding hand_over
    hand_over-Quiet target_id request failed =
        if-Quiet (str_eq target_id "") (refuse invalid_arguments) _ (λ w s. refl)
          (found-Quiet _ (
            bind-Quiet (parsed v c) _ (parsed-Early v c) (λ a.
              bind-Quiet (campaign_character v k target_id) _
                (campaign_character-Early v k target_id)
                (λ d. bind-Quiet (parsed v d) _ (parsed-Early v d) (λ b. gated _)))))

    dm_vendor_sell_item-Quiet :
        (buyer_id item : String) → Quiet (dm_vendor_sell_item v k sender c.id buyer_id item)
    unfolding dm_vendor_sell_item
    dm_vendor_sell_item-Quiet buyer_id item = found-Quiet _ (
        bind-Quiet (campaign_character v k buyer_id) _ (campaign_character-Early v k buyer_id)
          (λ d. gated _))

    dm_vendor_buy_item-Quiet :
        (vendor_id item : String) → Quiet (dm_vendor_buy_item v k sender vendor_id c.id item)
    unfolding dm_vendor_buy_item
    dm_vendor_buy_item-Quiet vendor_id item =
        bind-Quiet (campaign_character v k vendor_id) _ (campaign_character-Early v k vendor_id)
          (λ d. found-Quiet _ (gated _))

    effect_gate_lem :
        (effect : String)
        → str_eq effect "damage" ≡ true
        → effect_gate v k sender effect c ≡ refuse pvp_blocked
    unfolding effect_gate
    effect_gate_lem effect e = rw (e, other, closed) refl

    dm_apply_effect-Quiet :
        (effect : String) (n : ℤ) (damage : String)
        → str_eq effect "damage" ≡ true
        → Quiet (dm_apply_effect v k sender c.id effect n damage)
    unfolding dm_apply_effect
    dm_apply_effect-Quiet effect n damage e =
        if-Quiet (ltb_ℤ max_effect_amount n || ltb_ℤ n min_effect_amount)
          (refuse amount_out_of_range) _ (λ w s. refl)
          (found-Quiet _ (
            stop-Quiet (effect_gate v k sender effect c) _
              (λ w. ap (λ m. (m w).1.store) (effect_gate_lem effect e))
              (λ w. subst (λ m. IsRefused (m w).0) (sym (effect_gate_lem effect e)) tt)))

    dispatched :
        (t : CharacterToolCall) → gated_character t ≡ some c.id → Quiet (call_dm_tool v k sender t)
    unfolding gated_character call_dm_tool dm_give_item dm_transfer_currency
    dispatched (apply_effect id effect n damage) e = elim (Bool-cases (str_eq effect "damage")) [
      | inl d ↦
          subst (λ z. Quiet (dm_apply_effect v k sender z effect n damage)) (ground arith)
            (dm_apply_effect-Quiet effect n damage d)
      | inr d ↦ absurd (ground arith)
    ]
    dispatched (give_item id target item) e =
        subst (λ z. Quiet (hand_over v k sender z target (transfer_item item) give_failed))
          (ground arith) (hand_over-Quiet target (transfer_item item) give_failed)
    dispatched (spend_currency id p) e =
        subst (λ z. Quiet (dm_spend_currency v k sender z p)) (ground arith)
          (dm_spend_currency-Quiet p)
    dispatched (CharacterToolCall.transfer_currency id target p) e =
        subst
          (λ z.
            Quiet (hand_over v k sender z target (transfer_currency p) transfer_currency_failed))
          (ground arith) (hand_over-Quiet target (transfer_currency p) transfer_currency_failed)
    dispatched (vendor_sell_item vendor buyer item) e =
        subst (λ z. Quiet (dm_vendor_sell_item v k sender z buyer item)) (ground arith)
          (dm_vendor_sell_item-Quiet buyer item)
    dispatched (vendor_buy_item vendor seller item) e =
        subst (λ z. Quiet (dm_vendor_buy_item v k sender vendor z item)) (ground arith)
          (dm_vendor_buy_item-Quiet vendor item)
    dispatched unknown e = absurd (ground arith)
    dispatched unreadable e = absurd (ground arith)
    dispatched (cast_spell id spell target slot) e = absurd (ground arith)
    dispatched (melee_attack id target) e = absurd (ground arith)
    dispatched (ranged_attack id target) e = absurd (ground arith)
    dispatched (offhand_attack id target) e = absurd (ground arith)
    dispatched (grapple id target) e = absurd (ground arith)
    dispatched (shove id target effect) e = absurd (ground arith)
    dispatched (equip_item id item slot) e = absurd (ground arith)
    dispatched (unequip_item id slot) e = absurd (ground arith)
    dispatched (pack_item id item container) e = absurd (ground arith)
    dispatched (draw_item id item) e = absurd (ground arith)
    dispatched (receive_item id item) e = absurd (ground arith)
    dispatched (discard_item id item) e = absurd (ground arith)
    dispatched (add_currency id p) e = absurd (ground arith)
    dispatched (check_item_price item) e = absurd (ground arith)
    dispatched (list_vendor_inventory id) e = absurd (ground arith)

-- A stored character of another player is shielded by the gate of the tools that ask it before any
-- change is made. If the campaign's policy does not allow PvP and the engine never calls that character dead,
-- then a call that damages it by apply_effect, or that names it as the giver of give_item, the source of
-- transfer_currency, the payer of spend_currency, the vendor of vendor_sell_item or the seller of
-- vendor_buy_item, leaves the whole store as it was. The other characters of these calls, and the
-- character of discard_item, are not shielded.
pub call_dm_tool-Shielded :
    (v : Services) (campaign sender : String) (t : CharacterToolCall) (w : World v) (c : Character)
    → gated_character t ≡ some c.id
    → v.get_character c.id w.store ≡ some c
    → owner_exempt sender c ≡ false
    → allows_pvp (campaign_policy v campaign).pvp_policy ≡ false
    → ((a : Actor v.Data) (o : v.Outside)
        → a.actor_id ≡ c.id
        → (v.get_character_status a o).0 ≢ some dead)
    → (call_dm_tool v campaign sender t w).1.store ≡ w.store
call_dm_tool-Shielded v campaign sender t w c e s other closed alive =
    dispatched v campaign sender c other closed alive t e w s
