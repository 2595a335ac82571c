-- ===== src/Lobby/Public.antt =====
-- registry/internal/lobby: what the public read shows.
use layforge.Prelude.{
  ◌≡◌, refl, subst, sym, ap, ◌↔◌, inl, inr, false, not, String, Option, some, [], ◌∷◌,
  if◌then◌else◌, Bool-cases, ℤ, ◌≤ℤ◌, ◌-ℤ◌, -ℤ_parts, arith, ◌∈◌, lookup, keep_if, string_eq, IsMap,
  lookup-keep_if, lookup_of_mem,
}
use layforge.Lobby.Store.{Listing, Store, live, sweep, stale, blanked}
use layforge.Lobby.Handlers.{Url, handle_list}

-- Two stores that differ in tokens only.
unfoldable pub SameButTokens : Store → Store → Type 0
SameButTokens [] [] = Unit
SameButTokens ((i, l) ∷ s) ((j, m) ∷ t) =
    (i ≡ j) × (record l { token = "" } ≡ record m { token = "" }) × SameButTokens s t
SameButTokens _ _ = ⊥

live-SameButTokens :
    (now ttl : ℤ) (s t : Store) → SameButTokens s t → live now ttl s ≡ live now ttl t
unfolding live stale blanked SameButTokens
live-SameButTokens now ttl [] [] h = refl
live-SameButTokens now ttl [] (_ ∷ _) h = absurd h
live-SameButTokens now ttl (_ ∷ _) [] h = absurd h
live-SameButTokens now ttl ((i, l) ∷ s) ((j, m) ∷ t) (e, f, h) =
    cc (same_heartbeat, f, live-SameButTokens now ttl s t h)
  where
    same_heartbeat : l.last_heartbeat ≡ m.last_heartbeat
    same_heartbeat = ap (λ (x : Listing). x.last_heartbeat) f

-- The public read carries no information on tokens: on two stores that differ in tokens only, it
-- gives the same response.
pub handle_list-SameButTokens :
    (parse : String → Option Url) (now ttl : ℤ) (s t : Store)
    → SameButTokens s t
    → (handle_list parse now ttl s).0 ≡ (handle_list parse now ttl t).0
unfolding handle_list
handle_list-SameButTokens parse now ttl s t h = rw (live-SameButTokens now ttl s t h) refl

-- A sweep is never seen by the public: at its moment and at every later one, `Live` with the same
-- time to live returns the same listings whether or not the sweep ran.
pub live-sweep :
    (now later ttl : ℤ) (s : Store)
    → now ≤ℤ later
    → live later ttl (sweep now ttl s) ≡ live later ttl s
unfolding live sweep stale keep_if
live-sweep now later ttl [] h = refl
live-sweep now later ttl ((i, l) ∷ s) h =
    ground (arith, -ℤ_parts now ttl, -ℤ_parts later ttl, live-sweep now later ttl s h)

-- A listing is not stale exactly if its last heartbeat is at the cutoff or after it.
stale_iff :
    (now ttl : ℤ) (l : Listing) → (stale now ttl l ≡ false) ↔ (now -ℤ ttl ≤ℤ l.last_heartbeat)
unfolding stale
stale_iff now ttl l = ground (arith, -ℤ_parts now ttl)

-- In a store with one listing for each key, a key has a listing after a sweep exactly if it had that
-- listing before and the listing's last heartbeat is at least `now - ttl`.
pub lookup-sweep :
    (now ttl : ℤ) (s : Store) (i : String) (l : Listing)
    → IsMap s
    → (lookup i (sweep now ttl s) ≡ some l)
      ↔ ((lookup i s ≡ some l) × (now -ℤ ttl ≤ℤ l.last_heartbeat))
unfolding sweep
lookup-sweep now ttl s i l m =
    ground (arith, lookup-keep_if (λ l. not (stale now ttl l)) i s m, stale_iff now ttl l)

-- The store holds a listing with a last heartbeat at the cutoff or after it, which looks like this
-- with an empty token.
abbrev pub Shown : ℤ → ℤ → Store → Listing → Type 0
Shown now ttl s v =
    (i : String) × (l : Listing) × (lookup i s ≡ some l)
    × (now -ℤ ttl ≤ℤ l.last_heartbeat)
    × (v ≡ record l { token = "" })

mem_of_live :
    (now ttl : ℤ) (s : Store) (v : Listing)
    → v ∈ live now ttl s
    → (i : String) × (l : Listing) × ((i, l) ∈ s) × (stale now ttl l ≡ false) × (blanked l ≡ v)
unfolding live
mem_of_live now ttl [] v h = absurd h
mem_of_live now ttl ((i, l) ∷ s) v h = elim (Bool-cases (stale now ttl l)) [
  | inl e ↦
      let (j, m, a, b, c) =
        mem_of_live now ttl s v
          (subst (λ b. v ∈ (if b then live now ttl s else blanked l ∷ live now ttl s)) e h) in
      (j, m, inr a, b, c)
  | inr e ↦ elim (subst (λ b. v ∈ (if b then live now ttl s else blanked l ∷ live now ttl s)) e h) [
    | inl g ↦ (i, l, inl refl, e, sym g)
    | inr g ↦ let (j, m, a, b, c) = mem_of_live now ttl s v g in (j, m, inr a, b, c)
  ]
]

live_of_lookup :
    (now ttl : ℤ) (s : Store) (i : String) (l : Listing)
    → lookup i s ≡ some l
    → stale now ttl l ≡ false
    → blanked l ∈ live now ttl s
unfolding live lookup
live_of_lookup now ttl [] i l h f = absurd (ground arith)
live_of_lookup now ttl ((j, m) ∷ s) i l h f = ground (arith, live_of_lookup now ttl s i l)

-- In a store with one listing for each key, `Live` returns exactly the stored listings whose last
-- heartbeat is at least `now - ttl`, each with an empty token and otherwise as stored.
pub mem-live_iff :
    (now ttl : ℤ) (s : Store) → IsMap s → (v : Listing) → (v ∈ live now ttl s) ↔ Shown now ttl s v
unfolding blanked
mem-live_iff now ttl s m v = (
  λ h.
      let (i, l, a, b, c) = mem_of_live now ttl s v h in
      (i, l, lookup_of_mem i l s m a, (stale_iff now ttl l).0 b, sym c),
  λ (i, l, a, b, c).
      subst (λ w. w ∈ live now ttl s) (sym c)
        (live_of_lookup now ttl s i l a ((stale_iff now ttl l).1 b)),
)
