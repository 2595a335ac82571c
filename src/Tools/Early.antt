-- ===== src/Tools/Early.antt =====
-- master/internal/server/dm_tools.go and vendor.go: what a tool does before it saves anything, and how
-- it can fail afterwards.
use layforge.Prelude.{
  String, str_eq, ◌≡◌, refl, subst, ◌∙◌, ◌⊎◌, inl, inr, Bool, true, false, not, Bool-cases, Option,
  none, some, if◌then◌else◌,
}
use layforge.Tools.Services.{Services, Character, Actor, Request, Exchange}
use layforge.Tools.Actions.{
  Code, engine_error, internal_error, character_not_found, character_not_approved, pvp_blocked,
  Reply, refused, ok, World, Tool, give, refuse, call, ◌>>=◌, campaign_character, parsed, updated,
  save_updated_character, character_may_act, character_is_dead, pvp_gate_blocked, ask, ask_exchange,
  is_dead, is_approved, owner_exempt, allows_pvp, campaign_policy, master_sender_id,
}

-- The codes of a failure after something was saved.
abbrev pub late : Code → Bool
late internal_error = true
late pvp_blocked = true
late _ = false

abbrev pub OnRefused : {A : Type 0} → (Code → Type 0) → Reply A → Type 0
OnRefused P (refused c) = P c
OnRefused P (ok a) = Unit

module _ (v : Services) where
  -- The step leaves the store.
  abbrev pub Early : {A : Type 0} → Tool v A → Type 0
  Early m = (w : World v) → (m w).1.store ≡ w.store

  -- Its only refusals are the late ones.
  abbrev pub Late : {A : Type 0} → Tool v A → Type 0
  Late m = (w : World v) → OnRefused (λ c. late c ≡ true) (m w).0

  -- Any other refusal leaves the store.
  abbrev pub Clean : {A : Type 0} → Tool v A → Type 0
  Clean m = (w : World v) → OnRefused (λ c. (late c ≡ true) ⊎ ((m w).1.store ≡ w.store)) (m w).0

  pub bind-Early :
      {A B : Type 0} (m : Tool v A) (f : A → Tool v B)
      → Early m
      → ((a : A) → Early (f a))
      → Early (m >>= f)
  unfolding ◌>>=◌
  bind-Early {A} {B} m f h g w = go (m w) (h w)
    where
      go :
          (r : Reply A × World v)
          → r.1.store ≡ w.store
          → (elim r.0 as (λ x. Reply B × World v) [
            | refused c ↦ (refused c, r.1)
            | ok a ↦ f a r.1
          ]).1.store
            ≡ w.store
      go (refused c, w') e = e
      go (ok a, w') e = g a w' ∙ e

  pub bind-Clean :
      {A B : Type 0} (m : Tool v A) (f : A → Tool v B)
      → Early m
      → ((a : A) → Clean (f a))
      → Clean (m >>= f)
  unfolding ◌>>=◌
  bind-Clean {A} {B} m f h g w = go (m w) (h w)
    where
      after : Reply A × World v → Reply B × World v
      after r = elim r.0 [ refused c ↦ (refused c, r.1) | ok a ↦ f a r.1 ]

      go :
          (r : Reply A × World v)
          → r.1.store ≡ w.store
          → OnRefused (λ c. (late c ≡ true) ⊎ ((after r).1.store ≡ w.store)) (after r).0
      go (refused c, w') e = inr e
      go (ok a, w') e =
          subst (λ z. OnRefused (λ c. (late c ≡ true) ⊎ ((f a w').1.store ≡ z)) (f a w').0) e
            (g a w')

  pub bind-Late :
      {A B : Type 0} (m : Tool v A) (f : A → Tool v B)
      → Late m
      → ((a : A) → Late (f a))
      → Late (m >>= f)
  unfolding ◌>>=◌
  bind-Late {A} {B} m f h g w = go (m w) (h w)
    where
      go :
          (r : Reply A × World v)
          → OnRefused (λ c. late c ≡ true) r.0
          → OnRefused
              (λ c. late c ≡ true)
              (elim r.0 as (λ x. Reply B × World v) [
                | refused c ↦ (refused c, r.1)
                | ok a ↦ f a r.1
              ]).0
      go (refused c, w') e = e
      go (ok a, w') e = g a w'

  pub Late-Clean : {A : Type 0} (m : Tool v A) → Late m → Clean m
  Late-Clean {A} m h w = go (m w) (h w)
    where
      go :
          (r : Reply A × World v)
          → OnRefused (λ c. late c ≡ true) r.0
          → OnRefused (λ c. (late c ≡ true) ⊎ (r.1.store ≡ w.store)) r.0
      go (refused c, w') e = inl e
      go (ok a, w') e = tt

  pub Early-Clean : {A : Type 0} (m : Tool v A) → Early m → Clean m
  Early-Clean {A} m h w = go (m w) (h w)
    where
      go :
          (r : Reply A × World v)
          → r.1.store ≡ w.store
          → OnRefused (λ c. (late c ≡ true) ⊎ (r.1.store ≡ w.store)) r.0
      go (refused c, w') e = inr e
      go (ok a, w') e = tt

  pub if-Clean :
      {A : Type 0} (b : Bool) (m n : Tool v A) → Clean m → Clean n → Clean (if b then m else n)
  if-Clean true m n h g = h
  if-Clean false m n h g = g

  pub if-Early :
      {A : Type 0} (b : Bool) (m n : Tool v A) → Early m → Early n → Early (if b then m else n)
  if-Early true m n h g = h
  if-Early false m n h g = g

  pub call-Early : {A : Type 0} (f : v.Outside → Option A × v.Outside) → Early (call v f)
  call-Early {A} f w = go (f w.outside)
    where
      go :
          (r : Option A × v.Outside)
          → (elim r.0 as (λ x. Reply A × World v) [
            | none ↦ (refused engine_error, record w { outside = r.1 })
            | some a ↦ (ok a, record w { outside = r.1 })
          ]).1.store
            ≡ w.store
      go (none, o) = refl
      go (some a, o) = refl

  pub campaign_character-Early : (k id : String) → Early (campaign_character v k id)
  unfolding campaign_character
  campaign_character-Early k id w = go (v.get_character id w.store)
    where
      found : Option Character → Reply Character × World v
      found o = elim o [
        | none ↦ (refused character_not_found, w)
        | some c ↦
            if not (str_eq c.campaign_id k) then (refused character_not_found, w) else (ok c, w)
      ]

      go : (o : Option Character) → (found o).1.store ≡ w.store
      go none = refl
      go (some c) = elim (Bool-cases (str_eq c.campaign_id k)) [
        | inl e ↦ rw e refl
        | inr e ↦ rw e refl
      ]

  pub parsed-Early : (c : Character) → Early (parsed v c)
  unfolding parsed
  parsed-Early c w = go (v.parse c.character_data)
    where
      go :
          (o : Option v.Data)
          → (elim o as (λ x. Reply (Actor v.Data) × World v) [
            | none ↦ (refused internal_error, w)
            | some d ↦ (
              ok (record {
                actor_id = c.id;
                character_data = d;
                schema_version = c.schema_version;
              }),
              w,
            )
          ]).1.store
            ≡ w.store
      go none = refl
      go (some d) = refl

  pub ask-Early :
      (k : String) (request : Request) (failed : Code) (a : Actor v.Data)
      → Early (ask v k request failed a)
  unfolding ask
  ask-Early k request failed a =
      bind-Early (call v (v.act k request a)) (λ r. if not r.success then refuse failed else give r)
        (call-Early (v.act k request a))
        (λ r. if-Early (not r.success) (refuse failed) (give r) (λ w. refl) (λ w. refl))

  pub ask_exchange-Early :
      (k : String) (request : Exchange) (failed : Code) (a b : Actor v.Data)
      → Early (ask_exchange v k request failed a b)
  unfolding ask_exchange
  ask_exchange-Early k request failed a b =
      bind-Early (call v (v.exchange k request a b))
        (λ r. if not r.success then refuse failed else give r)
        (call-Early (v.exchange k request a b))
        (λ r. if-Early (not r.success) (refuse failed) (give r) (λ w. refl) (λ w. refl))

  pub character_may_act-Early : (c : Character) → Early (character_may_act v c)
  unfolding character_may_act
  character_may_act-Early c =
      if-Early (str_eq c.owner_id master_sender_id) (give tt) _ (λ w. refl)
        (if-Early (not (is_approved c.status)) (refuse character_not_approved) (give tt) (λ w. refl)
          (λ w. refl))

  pub character_is_dead-Early : (c : Character) → Early (character_is_dead v c)
  unfolding character_is_dead
  character_is_dead-Early c = go (v.parse c.character_data)
    where
      whole : v.Data → Actor v.Data
      whole d = record { actor_id = c.id; character_data = d; schema_version = c.schema_version }

      run : Option v.Data → Tool v Bool
      run o = elim o [
        | none ↦ refuse engine_error
        | some d ↦ call v (v.get_character_status (whole d)) >>= λ status. give (is_dead status)
      ]

      go : (o : Option v.Data) → Early (run o)
      go none = λ w. refl
      go (some d) =
          bind-Early (call v (v.get_character_status (whole d))) (λ status. give (is_dead status))
            (call-Early (v.get_character_status (whole d))) (λ status w. refl)

  pub pvp_gate_blocked-Early :
      (k sender : String) (c : Character) → Early (pvp_gate_blocked v k sender c)
  unfolding pvp_gate_blocked
  pvp_gate_blocked-Early k sender c =
      if-Early (owner_exempt sender c) (give tt) (character_is_dead v c >>= verdict) (λ w. refl)
        (bind-Early (character_is_dead v c) verdict (character_is_dead-Early c) (λ gone.
          if-Early gone (give tt)
            (if allows_pvp (campaign_policy v k).pvp_policy then give tt else refuse pvp_blocked)
            (λ w. refl)
            (if-Early (allows_pvp (campaign_policy v k).pvp_policy) (give tt) (refuse pvp_blocked)
              (λ w. refl) (λ w. refl))))
    where
      verdict : Bool → Tool v Unit
      verdict gone =
          if gone
          then give tt
          else if allows_pvp (campaign_policy v k).pvp_policy
          then give tt
          else refuse pvp_blocked

  pub save-Late : (c : Character) (a : Actor v.Data) → Late (save_updated_character v c a)
  unfolding save_updated_character updated
  save-Late c a w = go (v.print a.character_data)
    where
      whether : Bool → Reply Unit
      whether b = if b then ok tt else refused internal_error

      fits : (b : Bool) → OnRefused (λ c. late c ≡ true) (whether b)
      fits true = tt
      fits false = refl

      stored : String → Reply Unit × World v
      stored text =
          let (t, o) = v.now w.outside in
          let (saved, s) = v.save_character (updated v c text t) w.store in
          (whether saved, record { store = s; outside = o })

      go :
          (o : Option String)
          → OnRefused
              (λ c. late c ≡ true)
              (elim o as (λ x. Reply Unit × World v) [
                | none ↦ (refused internal_error, w)
                | some text ↦ stored text
              ]).0
      go none = refl
      go (some text) = fits (v.save_character (updated v c text (v.now w.outside).0) w.store).0
