-- ===== src/Tools/Isolated.antt =====
-- master/internal/server/dm_tools.go and vendor.go: each tool stays within its campaign.
use layforge.Prelude.{String, str_eq, Bool, true, false, not, Option, none, some, if◌then◌else◌}
use layforge.Tools.Services.{Services, Character, Actor, Acted, Request, Exchange}
use layforge.Tools.Actions.{
  Code, engine_error, character_not_approved, pvp_blocked, Answer, told, World, Tool, give, refuse,
  call, ◌>>=◌, campaign_character, parsed, save_updated_character, character_may_act,
  character_is_dead, pvp_gate_blocked, ask, ask_exchange, is_dead, is_approved, owner_exempt,
  allows_pvp, campaign_policy, master_sender_id,
}
use layforge.Tools.Items.{act_on}
use layforge.Tools.Scoped.{
  Inv, Meets, Loaded, bind-Meets, give-Meets, refuse-Meets, call-Meets, campaign_character-Meets,
  parsed-Meets, save_updated_character-Meets,
}

module _ (v : Services) (k : String) (start : v.Store) where
  abbrev Any : {A : Type 0} → A → Type 0
  Any a = Unit

  -- The step keeps the store within the campaign, whatever it gives.
  abbrev pub Stays : {A : Type 0} → Tool v A → Type 0
  Stays {A} m = (w : World v) → Inv v k start w.store → Meets v k start {A = A} Any (m w)

  -- A step that stays, and then others that do.
  pub bind-Stays :
      {A B : Type 0} (m : Tool v A) (f : A → Tool v B)
      → Stays m
      → ((a : A) → Stays (f a))
      → Stays (m >>= f)
  bind-Stays m f h g w i = bind-Meets v k start m f w (h w i) (λ a w' i' p. g a w' i')

  -- The same after the character is looked up.
  pub found-Stays :
      {B : Type 0} (id : String) (f : Character → Tool v B)
      → ((c : Character) → Loaded v k start c → Stays (f c))
      → Stays (campaign_character v k id >>= f)
  found-Stays id f g w i =
      bind-Meets v k start (campaign_character v k id) f w
        (campaign_character-Meets v k start id w i) (λ c w' i' l. g c l w' i')

  pub give-Stays : {A : Type 0} (a : A) → Stays (give a)
  give-Stays a w i = give-Meets v k start a w i tt

  pub refuse-Stays : {A : Type 0} (c : Code) → Stays {A = A} (refuse c)
  refuse-Stays c w i = refuse-Meets v k start c w i

  pub if-Stays :
      {A : Type 0} (b : Bool) (m n : Tool v A) → Stays m → Stays n → Stays (if b then m else n)
  if-Stays true m n h g = h
  if-Stays false m n h g = g

  pub call-Stays : {A : Type 0} (f : v.Outside → Option A × v.Outside) → Stays (call v f)
  call-Stays f w i = call-Meets v k start f w i

  pub parsed-Stays : (c : Character) → Stays (parsed v c)
  parsed-Stays c w i = parsed-Meets v k start c w i

  pub save-Stays :
      (c : Character) (a : Actor v.Data) → Loaded v k start c → Stays (save_updated_character v c a)
  save-Stays c a l w i = save_updated_character-Meets v k start c a w i l

  pub ask-Stays :
      (request : Request) (failed : Code) (a : Actor v.Data) → Stays (ask v k request failed a)
  unfolding ask
  ask-Stays request failed a =
      bind-Stays (call v (v.act k request a)) (λ r. if not r.success then refuse failed else give r)
        (call-Stays (v.act k request a))
        (λ r.
          if-Stays (not r.success) (refuse failed) (give r) (refuse-Stays failed) (give-Stays r))

  pub ask_exchange-Stays :
      (request : Exchange) (failed : Code) (a b : Actor v.Data)
      → Stays (ask_exchange v k request failed a b)
  unfolding ask_exchange
  ask_exchange-Stays request failed a b =
      bind-Stays (call v (v.exchange k request a b))
        (λ r. if not r.success then refuse failed else give r)
        (call-Stays (v.exchange k request a b))
        (λ r.
          if-Stays (not r.success) (refuse failed) (give r) (refuse-Stays failed) (give-Stays r))

  pub character_may_act-Stays : (c : Character) → Stays (character_may_act v c)
  unfolding character_may_act
  character_may_act-Stays c =
      if-Stays (str_eq c.owner_id master_sender_id) (give tt) _ (give-Stays tt) (
        if-Stays (not (is_approved c.status)) (refuse character_not_approved) (give tt)
          (refuse-Stays character_not_approved) (give-Stays tt))

  character_is_dead-Stays : (c : Character) → Stays (character_is_dead v c)
  unfolding character_is_dead
  character_is_dead-Stays c = go (v.parse c.character_data)
    where
      whole : v.Data → Actor v.Data
      whole d = record { actor_id = c.id; character_data = d; schema_version = c.schema_version }

      run : Option v.Data → Tool v Bool
      run o = elim o [
        | none ↦ refuse engine_error
        | some d ↦ call v (v.get_character_status (whole d)) >>= λ status. give (is_dead status)
      ]

      go : (o : Option v.Data) → Stays (run o)
      go none = refuse-Stays engine_error
      go (some d) =
          bind-Stays (call v (v.get_character_status (whole d))) (λ status. give (is_dead status))
            (call-Stays (v.get_character_status (whole d))) (λ status. give-Stays (is_dead status))

  pub pvp_gate_blocked-Stays :
      (sender : String) (c : Character) → Stays (pvp_gate_blocked v k sender c)
  unfolding pvp_gate_blocked
  pvp_gate_blocked-Stays sender c =
      if-Stays (owner_exempt sender c) (give tt) (character_is_dead v c >>= verdict) (give-Stays tt)
        (bind-Stays (character_is_dead v c) verdict (character_is_dead-Stays c) (λ gone.
          if-Stays gone (give tt)
            (if allows_pvp (campaign_policy v k).pvp_policy then give tt else refuse pvp_blocked)
            (give-Stays tt)
            (if-Stays (allows_pvp (campaign_policy v k).pvp_policy) (give tt) (refuse pvp_blocked)
              (give-Stays tt) (refuse-Stays pvp_blocked))))
    where
      verdict : Bool → Tool v Unit
      verdict gone =
          if gone
          then give tt
          else if allows_pvp (campaign_policy v k).pvp_policy
          then give tt
          else refuse pvp_blocked

  -- Saving what the engine answered, and telling of it.
  abbrev saved : Character → Acted v.Data → Tool v Answer
  saved c r = save_updated_character v c r.actor >>= λ u. give (told r.result_message)

  saved-Stays : (c : Character) (r : Acted v.Data) → Loaded v k start c → Stays (saved c r)
  saved-Stays c r l =
      bind-Stays (save_updated_character v c r.actor) (λ u. give (told r.result_message))
        (save-Stays c r.actor l) (λ u. give-Stays (told r.result_message))

  pub act_on-Stays :
      (id : String) (request : Request) (failed : Code) → Stays (act_on v k id request failed)
  unfolding act_on
  act_on-Stays id request failed =
      found-Stays id (λ c. parsed v c >>= λ a. ask v k request failed a >>= saved c)
        (λ c l.
          bind-Stays (parsed v c) (λ a. ask v k request failed a >>= saved c) (parsed-Stays c)
            (λ a.
              bind-Stays (ask v k request failed a) (saved c) (ask-Stays request failed a)
                (λ r. saved-Stays c r l)))
