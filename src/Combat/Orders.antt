-- ===== src/Combat/Orders.antt =====
-- master/internal/server/turn_order.go: a turn order that points at one of its characters, and the
-- steps that leave the stored orders alone.
use layforge.Prelude.{
  ℕ, zero, suc, ◌<◌, ◌≡◌, ◌≢◌, refl, true, false, String, str_eq, str_eq_iff, Option, none, some,
  List, [], ◌∷◌, map, arith, length, get_elem?, ℤ, pos, negsuc, ◌+ℤ◌, ltb_ℤ, leb_ℤ, lookup, insert,
  string_eq, lookup-insert,
}
use layforge.Combat.Engine.{Character, Engine}
use layforge.Combat.Turns.{
  TurnOrder, elem_at, Rolled, insert_roll, Server, send, campaign_character, character_is_dead,
  turn_started, start_turn_for, check_can_act, next_index, no_index, visit, land, roll_initiative,
  roll_all,
}

-- The order is active and its index points at a character.
abbrev pub Seated : TurnOrder → Type 0
Seated t =
    (t.is_active ≡ true)
    × (leb_ℤ (pos 0) t.current_index ≡ true)
    × (ltb_ℤ t.current_index (pos (length t.order)) ≡ true)

-- The same, but that the index may still stand before the first character.
abbrev pub Ready : TurnOrder → Type 0
Ready t =
    (t.is_active ≡ true)
    × (0 < length t.order)
    × (leb_ℤ (negsuc 0) t.current_index ≡ true)
    × (ltb_ℤ t.current_index (pos (length t.order)) ≡ true)

pub next_index-Seated : (t : TurnOrder) → Ready t → Seated (next_index t)
unfolding next_index ◌+ℤ◌
next_index-Seated t h = ground arith

pub next_index_order : (t : TurnOrder) → (next_index t).order ≡ t.order
unfolding next_index
next_index_order t = ground arith

get_elem?_lt : {A : Type 0} (xs : List A) (i : ℕ) → i < length xs → get_elem? xs i ≢ none
get_elem?_lt [] i h = absurd (omega arith)
get_elem?_lt (x ∷ xs) zero h = ground arith
get_elem?_lt (x ∷ xs) (suc i) h = get_elem?_lt xs i (ground arith)

pub elem_at-Seated : (t : TurnOrder) → Seated t → elem_at t.order t.current_index ≢ none
unfolding elem_at
elem_at-Seated t h = go t.current_index h.1 h.2
  where
    go :
        (i : ℤ)
        → leb_ℤ (pos 0) i ≡ true
        → ltb_ℤ i (pos (length t.order)) ≡ true
        → elem_at t.order i ≢ none
    go (pos i) a b = get_elem?_lt t.order i (ground arith)
    go (negsuc i) a b = absurd (ground arith)

-- Every stored turn order is seated.
abbrev pub AllSeated : List (String × TurnOrder) → Type 0
AllSeated m = (c : String) (t : TurnOrder) → lookup c m ≡ some t → Seated t

-- The same but for one campaign.
abbrev pub OthersSeated : String → List (String × TurnOrder) → Type 0
OthersSeated campaign m =
    (c : String) (t : TurnOrder) → str_eq campaign c ≡ false → lookup c m ≡ some t → Seated t

pub insert-AllSeated :
    (campaign : String) (t : TurnOrder) (m : List (String × TurnOrder))
    → OthersSeated campaign m
    → Seated t
    → AllSeated (insert campaign t m)
insert-AllSeated campaign t m o h c u e =
    ground (arith, str_eq_iff campaign c, o c u, lookup-insert campaign c t m)

pub length-insert_roll :
    (r : Rolled) (rs : List Rolled) → 0 < length (map (λ q. q.character_id) (insert_roll r rs))
unfolding insert_roll
length-insert_roll r [] = omega arith
length-insert_roll r (q ∷ rs) = ground arith

pub Seated-Ready : (t : TurnOrder) → Seated t → Ready t
Seated-Ready t h = ground arith

module _ (engine : Engine) where
  start_turn_for_orders :
      (campaign id : String) (s : Server engine)
      → (start_turn_for engine campaign id s).1.turn_orders ≡ s.turn_orders
  unfolding start_turn_for turn_started send
  start_turn_for_orders campaign id s = ground arith

  check_can_act_orders :
      (campaign id : String) (s : Server engine)
      → (check_can_act engine campaign id s).1.turn_orders ≡ s.turn_orders
  unfolding check_can_act
  check_can_act_orders campaign id s = ground arith

  character_is_dead_orders :
      (c : Character) (s : Server engine)
      → (character_is_dead engine c s).1.turn_orders ≡ s.turn_orders
  unfolding character_is_dead
  character_is_dead_orders c s = ground arith

  visit_orders :
      (campaign : String) (c : Character) (s : Server engine)
      → (visit engine campaign c s).1.turn_orders ≡ s.turn_orders
  unfolding visit send
  visit_orders campaign c s = ground (
    arith,
    start_turn_for_orders campaign c.id s,
    check_can_act_orders campaign c.id (start_turn_for engine campaign c.id s).1,
  )

  pub land_orders :
      (campaign : String) (t : TurnOrder) (s : Server engine)
      → (land engine campaign t s).1.turn_orders ≡ s.turn_orders
  unfolding land
  land_orders campaign t s = go (elem_at t.order t.current_index) refl
    where
      found :
          (id : String) (o : Option Character)
          → elem_at t.order t.current_index ≡ some id
          → campaign_character engine campaign id s ≡ o
          → (land engine campaign t s).1.turn_orders ≡ s.turn_orders
      found id none e f = ground arith
      found id (some c) e f = ground (
        arith,
        visit_orders campaign c (character_is_dead engine c s).1,
        character_is_dead_orders c s,
      )

      go :
          (o : Option String)
          → elem_at t.order t.current_index ≡ o
          → (land engine campaign t s).1.turn_orders ≡ s.turn_orders
      go none e = ground arith
      go (some id) e = found id (campaign_character engine campaign id s) e refl

  visit_index :
      (campaign : String) (c : Character) (s : Server engine)
      → (visit engine campaign c s).0 ≢ no_index
  unfolding visit
  visit_index campaign c s = ground arith

  -- Whether the landing finds an index.
  pub land_index :
      (campaign : String) (t : TurnOrder) (s : Server engine)
      → Seated t
      → (land engine campaign t s).0 ≢ no_index
  unfolding land
  land_index campaign t s h = go (elem_at t.order t.current_index) refl
    where
      found :
          (id : String) (o : Option Character)
          → elem_at t.order t.current_index ≡ some id
          → campaign_character engine campaign id s ≡ o
          → (land engine campaign t s).0 ≢ no_index
      found id none e f = ground arith
      found id (some c) e f =
          ground (arith, visit_index campaign c (character_is_dead engine c s).1)

      go :
          (o : Option String)
          → elem_at t.order t.current_index ≡ o
          → (land engine campaign t s).0 ≢ no_index
      go none e = absurd (elem_at-Seated t h e)
      go (some id) e = found id (campaign_character engine campaign id s) e refl

  roll_initiative_orders :
      (campaign id : String) (s : Server engine)
      → (roll_initiative engine campaign id s).1.turn_orders ≡ s.turn_orders
  unfolding roll_initiative send
  roll_initiative_orders campaign id s = go (campaign_character engine campaign id s) refl
    where
      go :
          (o : Option Character)
          → campaign_character engine campaign id s ≡ o
          → (roll_initiative engine campaign id s).1.turn_orders ≡ s.turn_orders
      go none e = ground arith
      go (some c) e = ground (arith, character_is_dead_orders c s)

  pub roll_all_orders :
      (campaign : String) (ids : List String) (s : Server engine)
      → (roll_all engine campaign ids s).1.turn_orders ≡ s.turn_orders
  unfolding roll_all
  roll_all_orders campaign [] s = refl
  roll_all_orders campaign (id ∷ ids) s = ground (
    arith,
    roll_initiative_orders campaign id s,
    roll_all_orders campaign ids (roll_initiative engine campaign id s).1,
  )
