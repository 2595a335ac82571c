-- ===== src/Combat/Seated.antt =====
-- master/internal/server/turn_order.go: a stored turn order always points at one of its characters.
use layforge.Prelude.{
  ℕ, zero, suc, if◌then◌else◌, str_eq, get_elem?, pos, negsuc, inl, inr, ◌≡◌, ◌≢◌, refl, sym, subst,
  ◌↔◌, ◌⊎◌, true, String, str_eq_iff, Option, none, some, List, [], ◌∷◌, arith, length, ℤ, lookup,
  insert, string_eq, lookup-insert, lookup-delete,
}
use layforge.Combat.Engine.{Character, CheckResolved, Engine}
use layforge.Combat.Turns.{
  TurnOrder, TurnState, to_payload, Rolled, sort_rolls, Result, ok, failed, panicked, Server, send,
  put_order, persist_combat_state, end_combat, announce, next_index, Landing, no_index, not_found,
  dead_one, acts, incapacitated, land, after_lap, advance_loop, advance_to_next, roll_all,
  roll_initiative, campaign_character, character_is_dead, elem_at, fresh_order, start_combat,
  advance_turn, current_turn_character_id, enforce_turn_order,
}
use layforge.Combat.Orders.{
  Seated, Ready, next_index-Seated, next_index_order, elem_at-Seated, AllSeated, OthersSeated,
  insert-AllSeated, length-insert_roll, Seated-Ready, land_orders, land_index, roll_all_orders,
}

module _ (engine : Engine) where
  -- A call that ends without a panic, with all stored turn orders seated.
  abbrev pub Fine : Result TurnState × Server engine → Type 0
  Fine r = (r.0 ≢ panicked) × AllSeated r.1.turn_orders

  announce_orders :
      (campaign : String) (t : TurnOrder) (s : Server engine)
      → (announce engine campaign t s).1.turn_orders ≡ insert campaign t s.turn_orders
  unfolding announce persist_combat_state send put_order
  announce_orders campaign t s = ground arith

  announce_ok :
      (campaign : String) (t : TurnOrder) (s : Server engine)
      → Seated t
      → (announce engine campaign t s).0 ≢ panicked
  unfolding announce to_payload
  announce_ok campaign t s h = ground (arith, elem_at-Seated t h)

  announce-Fine :
      (campaign : String) (t : TurnOrder) (s : Server engine)
      → OthersSeated campaign s.turn_orders
      → Seated t
      → Fine (announce engine campaign t s)
  announce-Fine campaign t s o h = (
    announce_ok campaign t s h,
    subst AllSeated (sym (announce_orders campaign t s))
        (insert-AllSeated campaign t s.turn_orders o h),
  )

  after_lap-Fine :
      (campaign : String) (last : Option ℤ) (t : TurnOrder) (s : Server engine)
      → OthersSeated campaign s.turn_orders
      → ((i : ℤ) → last ≡ some i → Seated (record t { current_index = i }))
      → Fine (after_lap engine campaign last t s)
  unfolding after_lap end_combat send
  after_lap-Fine campaign none t s o h = (
    λ e. ground arith,
    λ c u e. ground (arith, str_eq_iff campaign c, o c u, lookup-delete campaign c s.turn_orders),
  )
  after_lap-Fine campaign (some i) t s o h =
      announce-Fine campaign (record t { current_index = i }) s o (h i refl)

  advance_loop-Fine :
      (n : ℕ) (campaign : String) (last : Option ℤ) (t : TurnOrder) (s : Server engine)
      → OthersSeated campaign s.turn_orders
      → Ready t
      → ((i : ℤ) → last ≡ some i → Seated (record t { current_index = i }))
      → Fine (advance_loop engine n campaign last t s)
  unfolding advance_loop
  advance_loop-Fine zero campaign last t s o r h = after_lap-Fine campaign last t s o h
  advance_loop-Fine (suc n) campaign last t s o r h =
      go (λ l k. advance_loop-Fine n campaign l t' s' others ready k) found refl
    where
      t' : TurnOrder
      t' = next_index t

      found : Landing
      found = (land engine campaign t' s).0

      s' : Server engine
      s' = (land engine campaign t' s).1

      seated : Seated t'
      seated = next_index-Seated t r

      others : OthersSeated campaign s'.turn_orders
      others = subst (OthersSeated campaign) (sym (land_orders engine campaign t' s)) o

      ready : Ready t'
      ready = Seated-Ready t' seated

      go :
          ((l : Option ℤ)
            → ((i : ℤ) → l ≡ some i → Seated (record t' { current_index = i }))
            → Fine (advance_loop engine n campaign l t' s'))
          → (f : Landing) → found ≡ f
          → Fine (advance_loop engine (suc n) campaign last t s)
      go rec no_index e = absurd (land_index engine campaign t' s seated e)
      go rec not_found e =
          rw (e, advance_loop)
            (λ x. ground arith, insert-AllSeated campaign t' s'.turn_orders others seated)
      go rec dead_one e =
          rw (e, advance_loop) (rec last (λ i q. ground (arith, h i q, next_index_order t)))
      go rec incapacitated e =
          rw (e, advance_loop) (rec (some t'.current_index) (λ i q. ground arith))
      go rec acts e = rw (e, advance_loop) (announce-Fine campaign t' s' others seated)

  advance_to_next-Fine :
      (campaign : String) (t : TurnOrder) (s : Server engine)
      → OthersSeated campaign s.turn_orders
      → Ready t
      → Fine (advance_to_next engine campaign t s)
  unfolding advance_to_next
  advance_to_next-Fine campaign t s o r =
      advance_loop-Fine (length t.order) campaign none t s o r (λ i e. absurd (ground arith))

  started-Fine :
      (campaign : String) (rolls : List Rolled) (s : Server engine)
      → AllSeated s.turn_orders
      → Ready (fresh_order rolls)
      → Fine (
          advance_to_next engine campaign
            (fresh_order rolls)
            (put_order engine campaign (fresh_order rolls) s))
  unfolding put_order
  started-Fine campaign rolls s a r =
      advance_to_next-Fine campaign (fresh_order rolls)
        (put_order engine campaign (fresh_order rolls) s)
        (λ c u n e.
          ground (arith, a c u, lookup-insert campaign c (fresh_order rolls) s.turn_orders))
        r

  fresh_order-Ready : (r : Rolled) (rs : List Rolled) → Ready (fresh_order (r ∷ rs))
  unfolding fresh_order sort_rolls
  fresh_order-Ready r rs = ground (arith, length-insert_roll r (sort_rolls rs))

  -- A successful response to a check carries its outcome: system_engine.proto says of ResolveCheck that
  -- it returns one, and keeps `error` for a failure.
  abbrev pub CarriesOutcome : Type 0
  CarriesOutcome =
      (c : Character) (w : engine.World) (r : CheckResolved)
      → (engine.resolve_check c w).0 ≡ some r
      → r.success ≡ true
      → r.outcome ≢ none

  roll_initiative_ok :
      (campaign id : String) (s : Server engine)
      → CarriesOutcome
      → (roll_initiative engine campaign id s).0 ≢ panicked
  unfolding roll_initiative send
  roll_initiative_ok campaign id s h = go (campaign_character engine campaign id s) refl
    where
      checked :
          (c : Character) (r : Option CheckResolved)
          → (engine.resolve_check c (character_is_dead engine c s).1.world).0 ≡ r
          → campaign_character engine campaign id s ≡ some c
          → (roll_initiative engine campaign id s).0 ≢ panicked
      checked c none q e = ground arith
      checked c (some r) q e = ground (arith, h c (character_is_dead engine c s).1.world r q)

      go :
          (o : Option Character)
          → campaign_character engine campaign id s ≡ o
          → (roll_initiative engine campaign id s).0 ≢ panicked
      go none e = ground arith
      go (some c) e =
          checked c (engine.resolve_check c (character_is_dead engine c s).1.world).0 refl e

  roll_all_ok :
      (campaign : String) (ids : List String) (s : Server engine)
      → CarriesOutcome
      → (roll_all engine campaign ids s).0 ≢ panicked
  unfolding roll_all
  roll_all_ok campaign [] s h = ground arith
  roll_all_ok campaign (id ∷ ids) s h = ground (
    arith,
    roll_initiative_ok campaign id s h,
    roll_all_ok campaign ids (roll_initiative engine campaign id s).1 h,
  )

  start_combat-Fine :
      (campaign : String) (ids : List String) (s : Server engine)
      → CarriesOutcome
      → AllSeated s.turn_orders
      → Fine (start_combat engine campaign ids s)
  unfolding start_combat
  start_combat-Fine campaign [] s c a = (λ e. ground arith, a)
  start_combat-Fine campaign (id ∷ ids) s c a = go rolls refl
    where
      rolls : Result (List Rolled)
      rolls = (roll_all engine campaign (id ∷ ids) s).0

      s1 : Server engine
      s1 = (roll_all engine campaign (id ∷ ids) s).1

      seated : AllSeated s1.turn_orders
      seated = subst AllSeated (sym (roll_all_orders engine campaign (id ∷ ids) s)) a

      go : (o : Result (List Rolled)) → rolls ≡ o → Fine (start_combat engine campaign (id ∷ ids) s)
      go panicked e = absurd (roll_all_ok campaign (id ∷ ids) s c e)
      go failed e = rw (e, start_combat) (λ x. ground arith, seated)
      go (ok []) e = rw (e, start_combat) (λ x. ground arith, seated)
      go (ok (r ∷ rs)) e =
          rw (e, start_combat) (started-Fine campaign (r ∷ rs) s1 seated (fresh_order-Ready r rs))

  advance_turn-Fine :
      (campaign : String) (s : Server engine)
      → AllSeated s.turn_orders
      → Fine (advance_turn engine campaign s)
  unfolding advance_turn
  advance_turn-Fine campaign s a = go (lookup campaign s.turn_orders) refl
    where
      same :
          (t : TurnOrder)
          → lookup campaign s.turn_orders ≡ some t
          → t.is_active ≡ true
          → advance_to_next engine campaign t s ≡ advance_turn engine campaign s
      same t e f = ground arith

      go :
          (o : Option TurnOrder)
          → lookup campaign s.turn_orders ≡ o
          → Fine (advance_turn engine campaign s)
      go none e = rw (e, advance_turn) (λ x. ground arith, a)
      go (some t) e =
          subst Fine (same t e (a campaign t e).0) (
            advance_to_next-Fine campaign t s (λ c u n f. a c u f)
              (Seated-Ready t (a campaign t e)))

  -- If every stored turn order points at one of its characters, then starting a combat, advancing
  -- its turn or ending it does not panic, and every stored turn order points at one of its characters
  -- after it, whatever else the System Engine and the character store answer, provided that each
  -- successful response to a check carries its outcome.
  pub combat-Fine :
      (campaign : String) (ids : List String) (s : Server engine)
      → CarriesOutcome
      → AllSeated s.turn_orders
      → Fine (start_combat engine campaign ids s)
        × Fine (advance_turn engine campaign s)
        × AllSeated (end_combat engine campaign s).1.turn_orders
  unfolding end_combat send
  combat-Fine campaign ids s o a = (
    start_combat-Fine campaign ids s o a,
    advance_turn-Fine campaign s a,
    λ c u e. ground (arith, str_eq_iff campaign c, a c u, lookup-delete campaign c s.turn_orders),
  )

  current_ok :
      (campaign : String) (s : Server engine)
      → AllSeated s.turn_orders
      → current_turn_character_id engine campaign s ≢ panicked
  unfolding current_turn_character_id
  current_ok campaign s a = go (lookup campaign s.turn_orders) refl
    where
      go :
          (o : Option TurnOrder)
          → lookup campaign s.turn_orders ≡ o
          → current_turn_character_id engine campaign s ≢ panicked
      go none e = ground arith
      go (some t) e = ground (arith, elem_at-Seated t (a campaign t e))

  -- The campaign's turn order names this character at its current index.
  abbrev pub HasTurn : String → String → Server engine → Type 0
  HasTurn campaign id s =
      (t : TurnOrder) × (n : ℕ) × (lookup campaign s.turn_orders ≡ some t)
      × (t.current_index ≡ pos n)
      × (get_elem? t.order n ≡ some id)

  -- While every stored turn order points at one of its characters, checking an action never panics,
  -- and it lets a character act exactly if no turn order is stored for the campaign or the stored one
  -- has that character at its current index; otherwise it is an error.
  pub enforce_turn_order_lem :
      (campaign id : String) (s : Server engine)
      → AllSeated s.turn_orders
      → (enforce_turn_order engine campaign id s ≢ panicked)
        × ((enforce_turn_order engine campaign id s ≡ ok true)
            ↔ ((lookup campaign s.turn_orders ≡ none) ⊎ HasTurn campaign id s))
  unfolding enforce_turn_order current_turn_character_id elem_at
  enforce_turn_order_lem campaign id s a = go (lookup campaign s.turn_orders) refl
    where
      named :
          (t : TurnOrder) (n : ℕ) (c : String)
          → lookup campaign s.turn_orders ≡ some t
          → t.current_index ≡ pos n
          → get_elem? t.order n ≡ some c
          → enforce_turn_order engine campaign id s ≡ (if str_eq id c then ok true else failed)
      named t n c e i o = ground (arith, a campaign t e)

      theirs :
          (t : TurnOrder) (n : ℕ) (c : String)
          → lookup campaign s.turn_orders ≡ some t
          → t.current_index ≡ pos n
          → get_elem? t.order n ≡ some c
          → (lookup campaign s.turn_orders ≡ none) ⊎ HasTurn campaign id s
          → id ≡ c
      theirs t n c e i o (inl h) = absurd (ground arith)
      theirs t n c e i o (inr (t', n', e', i', o')) = ground arith

      pointed :
          (t : TurnOrder)
          → lookup campaign s.turn_orders ≡ some t
          → (i : ℤ) → t.current_index ≡ i
          → (enforce_turn_order engine campaign id s ≢ panicked)
            × ((enforce_turn_order engine campaign id s ≡ ok true)
                ↔ ((lookup campaign s.turn_orders ≡ none) ⊎ HasTurn campaign id s))
      pointed t e (negsuc n) i = absurd (ground (arith, a campaign t e))
      pointed t e (pos n) i = found (get_elem? t.order n) refl
        where
          found :
              (o : Option String)
              → get_elem? t.order n ≡ o
              → (enforce_turn_order engine campaign id s ≢ panicked)
                × ((enforce_turn_order engine campaign id s ≡ ok true)
                    ↔ ((lookup campaign s.turn_orders ≡ none) ⊎ HasTurn campaign id s))
          found none o = absurd (ground (arith, elem_at-Seated t (a campaign t e)))
          found (some c) o = (
            λ q. ground (arith, named t n c e i o),
            (
              λ q. inr (t, n, e, i, ground (arith, named t n c e i o, str_eq_iff id c)),
              λ h. ground (arith, named t n c e i o, str_eq_iff id c, theirs t n c e i o h),
            ),
          )

      go :
          (o : Option TurnOrder)
          → lookup campaign s.turn_orders ≡ o
          → (enforce_turn_order engine campaign id s ≢ panicked)
            × ((enforce_turn_order engine campaign id s ≡ ok true)
                ↔ ((lookup campaign s.turn_orders ≡ none) ⊎ HasTurn campaign id s))
      go none e = (λ q. ground arith, (λ h. inl e, λ h. ground arith))
      go (some t) e = pointed t e t.current_index refl
