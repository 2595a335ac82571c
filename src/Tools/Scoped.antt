-- ===== src/Tools/Scoped.antt =====
-- master/internal/server/dm_tools.go and vendor.go: a tool changes only the data of characters of its
-- campaign.
use layforge.Prelude.{
  ℕ, String, str_eq, str_eq_iff, ◌≡◌, refl, sym, ap, subst, ◌∙◌, ◌≢◌, inl, inr, not, Bool-cases,
  Option, none, some, if◌then◌else◌,
}
use layforge.Tools.Services.{Services, Character, Actor}
use layforge.Tools.Actions.{
  Code, engine_error, internal_error, character_not_found, Reply, refused, ok, World, Tool, give,
  refuse, call, ◌>>=◌, campaign_character, parsed, updated, save_updated_character,
}

-- The character, with other data and another time of change.
abbrev pub SameBut : Character → Character → Type 0
SameBut c d = d ≡ record c { character_data = d.character_data; updated_at = d.updated_at }

-- What a tool of a campaign may do to what is stored under an id.
abbrev pub Kept : String → Option Character → Option Character → Type 0
Kept k none none = Unit
Kept k (some c) (some d) = SameBut c d × ((c.campaign_id ≢ k) → d ≡ c)
Kept k _ _ = ⊥

Kept-refl : (k : String) (o : Option Character) → Kept k o o
Kept-refl k none = tt
Kept-refl k (some c) = (refl, λ n. refl)

abbrev pub OnOk : {A : Type 0} → (A → Type 0) → Reply A → Type 0
OnOk Q (refused c) = Unit
OnOk Q (ok a) = Q a

Kept-some :
    (k : String) (o : Option Character) (c : Character)
    → Kept k o (some c)
    → (b : Character) × (o ≡ some b) × SameBut b c × ((b.campaign_id ≢ k) → c ≡ b)
Kept-some k none c h = absurd h
Kept-some k (some b) c (h, g) = (b, refl, h, g)

trivial : (r : Reply Unit) → OnOk (λ u. Unit) r
trivial (refused c) = tt
trivial (ok u) = tt

module _ (v : Services) (k : String) (start : v.Store) where
  -- Since the start, only data of characters of the campaign has changed.
  abbrev pub Inv : v.Store → Type 0
  Inv s = (id : String) → Kept k (v.get_character id start) (v.get_character id s)

  pub record Meets {A : Type 0} (Q : A → Type 0) (r : Reply A × World v) : Type 0 where
    pub kept : Inv r.1.store
    pub holds : OnOk Q r.0

  pub Inv-refl : Inv start
  Inv-refl id = Kept-refl k (v.get_character id start)

  -- The character was of the campaign at the start, with other data perhaps.
  abbrev pub Loaded : Character → Type 0
  Loaded c =
      (b : Character) × (v.get_character c.id start ≡ some b) × SameBut b c × (b.campaign_id ≡ k)

  pub bind-Meets :
      {A B : Type 0} {P : A → Type 0} {Q : B → Type 0} (m : Tool v A) (f : A → Tool v B)
      (w : World v)
      → Meets P (m w)
      → ((a : A) (w' : World v) → Inv w'.store → P a → Meets Q (f a w'))
      → Meets Q ((m >>= f) w)
  unfolding ◌>>=◌
  bind-Meets {A} {B} {P} {Q} m f w h g = go (m w) h
    where
      go :
          (r : Reply A × World v)
          → Meets P r
          → Meets Q (elim r.0 [ refused c ↦ (refused c, r.1) | ok a ↦ f a r.1 ])
      go (refused c, w') h = record { kept = h.kept; holds = tt }
      go (ok a, w') h = g a w' h.kept h.holds

  pub give-Meets :
      {A : Type 0} {Q : A → Type 0} (a : A) (w : World v) → Inv w.store → Q a → Meets Q (give a w)
  give-Meets a w i q = record { kept = i; holds = q }

  pub refuse-Meets :
      {A : Type 0} {Q : A → Type 0} (c : Code) (w : World v) → Inv w.store → Meets Q (refuse c w)
  refuse-Meets c w i = record { kept = i; holds = tt }

  pub call-Meets :
      {A : Type 0} (f : v.Outside → Option A × v.Outside) (w : World v)
      → Inv w.store
      → Meets (λ a. Unit) (call v f w)
  call-Meets {A} f w i = go (f w.outside)
    where
      go :
          (r : Option A × v.Outside)
          → Meets {A = A}
              (λ a. Unit)
              (elim r.0 [
                | none ↦ (refused engine_error, record w { outside = r.1 })
                | some a ↦ (ok a, record w { outside = r.1 })
              ])
      go (none, o) = record { kept = i; holds = tt }
      go (some a, o) = record { kept = i; holds = tt }

  loaded :
      (c : Character) (w : World v) (id : String)
      → Inv w.store
      → v.get_character id w.store ≡ some c
      → c.campaign_id ≡ k
      → Loaded c
  loaded c w id i h e =
      let (b, g, same, _) =
        Kept-some k (v.get_character id start) c
          (subst (λ z. Kept k (v.get_character id start) z) h (i id)) in
      (
        b,
        subst (λ z. v.get_character z start ≡ some b) (sym (v.get-id id w.store c h)) g,
        same,
        sym (ap (λ z. z.campaign_id) same) ∙ e,
      )

  pub campaign_character-Meets :
      (id : String) (w : World v) → Inv w.store → Meets Loaded (campaign_character v k id w)
  unfolding campaign_character
  campaign_character-Meets id w i = go (v.get_character id w.store) refl
    where
      found : Character → Reply Character × World v
      found c = if not (str_eq c.campaign_id k) then (refused character_not_found, w) else (ok c, w)

      go :
          (o : Option Character)
          → v.get_character id w.store ≡ o
          → Meets Loaded (elim o [ none ↦ (refused character_not_found, w) | some c ↦ found c ])
      go none h = record { kept = i; holds = tt }
      go (some c) h = elim (Bool-cases (str_eq c.campaign_id k)) [
        | inl e ↦
            rw e (record { kept = i; holds = loaded c w id i h ((str_eq_iff c.campaign_id k).0 e) })
        | inr e ↦ rw e (record { kept = i; holds = tt })
      ]

  pub parsed-Meets : (c : Character) (w : World v) → Inv w.store → Meets (λ a. Unit) (parsed v c w)
  unfolding parsed
  parsed-Meets c w i = go (v.parse c.character_data)
    where
      go :
          (o : Option v.Data)
          → Meets {A = Actor v.Data}
              (λ a. Unit)
              (elim o [
                | none ↦ (refused internal_error, w)
                | some d ↦ (
                  ok (record {
                    actor_id = c.id;
                    character_data = d;
                    schema_version = c.schema_version;
                  }),
                  w,
                )
              ])
      go none = record { kept = i; holds = tt }
      go (some d) = record { kept = i; holds = tt }

  saved-Inv :
      (c : Character) (text : String) (t : ℕ) (s : v.Store)
      → Inv s
      → Loaded c
      → Inv (v.save_character (updated v c text t) s).1
  unfolding updated
  saved-Inv c text t s i (b, g, same, e) id =
      elim (Bool-cases (v.save_character (updated v c text t) s).0) [
        | inr n ↦
            subst (Kept k (v.get_character id start))
              (sym (v.get-unsaved (updated v c text t) s id n)) (i id)
        | inl y ↦
            subst (Kept k (v.get_character id start))
              (sym (v.get-saved (updated v c text t) s id y))
              (elim (Bool-cases (str_eq c.id id)) [
                | inr d ↦ rw d (i id)
                | inl d ↦ rw d (
                    subst (λ z. Kept k z (some (updated v c text t)))
                      (subst (λ z. some b ≡ v.get_character z start) ((str_eq_iff c.id id).0 d)
                        (sym g))
                      (ap (λ z. updated v z text t) same, λ n. absurd (n e)))
              ])
      ]

  pub save_updated_character-Meets :
      (c : Character) (a : Actor v.Data) (w : World v)
      → Inv w.store
      → Loaded c
      → Meets (λ u. Unit) (save_updated_character v c a w)
  unfolding save_updated_character
  save_updated_character-Meets c a w i l = go (v.print a.character_data)
    where
      stored : String → Reply Unit × World v
      stored text =
          let (t, o) = v.now w.outside in
          let (saved, s) = v.save_character (updated v c text t) w.store in
          (if saved then ok tt else refused internal_error, record { store = s; outside = o })

      go :
          (o : Option String)
          → Meets {A = Unit}
              (λ u. Unit)
              (elim o [ none ↦ (refused internal_error, w) | some text ↦ stored text ])
      go none = record { kept = i; holds = tt }
      go (some text) = record {
        kept = saved-Inv c text (v.now w.outside).0 w.store i l;
        holds = trivial (
            if (v.save_character (updated v c text (v.now w.outside).0) w.store).0
            then ok tt
            else refused internal_error);
      }
