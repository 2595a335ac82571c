-- ===== src/Lobby/Access.antt =====
-- registry/internal/lobby: who may change a listing.
use layforge.Prelude.{
  ◌≡◌, ◌≢◌, refl, ap, String, str_eq_iff, Option, none, some, ℤ, arith, lookup, string_eq,
  lookup-insert, lookup-delete,
}
use layforge.Lobby.Store.{Fields, Listing, Store, create, heartbeat, remove}
use layforge.Lobby.Handlers.{
  Url, decoded, too_large, invalid_json, Request, post_listing, put_listing, delete_listing,
  get_listings, with_body, handle_create, handle_heartbeat, handle_remove, handle_list, handle,
}

-- The request is entitled to change the listing stored under `i` with this token: it updates or
-- removes that listing and carries its token, or it creates one and drew the same id at random.
unfoldable pub Entitled : String → String → Request → Type 0
Entitled i t (post_listing b j u) = j ≡ some i
Entitled i t (put_listing j (decoded b)) = (j ≡ i) × (b.token ≡ t)
Entitled i t (put_listing j _) = ⊥
Entitled i t (delete_listing j (decoded u)) = (j ≡ i) × (u ≡ t)
Entitled i t (delete_listing j _) = ⊥
Entitled i t get_listings = ⊥

lookup-create :
    (j u : Option String) (now : ℤ) (f : Fields) (s : Store) (i : String) (l : Listing)
    → lookup i s ≡ some l
    → j ≢ some i
    → lookup i (create j u now f s).1 ≡ some l
unfolding create
lookup-create none u now f s i l h n = h
lookup-create (some j) none now f s i l h n = h
lookup-create (some j) (some t) now f s i l h n = ground (
  arith,
  λ (e : j ≡ i). n (ap some e),
  str_eq_iff j i,
  lookup-insert j i (record { id = j; token = t; fields = f; last_heartbeat = now }) s,
)

lookup-heartbeat :
    (j u : String) (now : ℤ) (f : Fields) (s : Store) (i : String) (l : Listing)
    → lookup i s ≡ some l
    → ¬ ((j ≡ i) × (u ≡ l.token))
    → lookup i (heartbeat j u now f s).1 ≡ some l
unfolding heartbeat
lookup-heartbeat j u now f s i l h n = go (lookup j s) refl
  where
    go : (o : Option Listing) → lookup j s ≡ o → lookup i (heartbeat j u now f s).1 ≡ some l
    go none e = ground arith
    go (some m) e = ground (
      arith,
      str_eq_iff j i,
      str_eq_iff m.token u,
      lookup-insert j i (record m { fields = f; last_heartbeat = now }) s,
    )

lookup-remove :
    (j u : String) (s : Store) (i : String) (l : Listing)
    → lookup i s ≡ some l
    → ¬ ((j ≡ i) × (u ≡ l.token))
    → lookup i (remove j u s).1 ≡ some l
unfolding remove
lookup-remove j u s i l h n = go (lookup j s) refl
  where
    go : (o : Option Listing) → lookup j s ≡ o → lookup i (remove j u s).1 ≡ some l
    go none e = ground arith
    go (some m) e = ground (arith, str_eq_iff j i, str_eq_iff m.token u, lookup-delete j i s)

module _ (parse : String → Option Url) where
  -- A stored listing stays exactly as it is under every request that is not entitled to change
  -- it: one that neither updates nor removes it with its own token, nor creates a listing for which the
  -- random source repeats its id.
  pub handle-Entitled :
      (ttl now : ℤ) (r : Request) (s : Store) (i : String) (l : Listing)
      → lookup i s ≡ some l
      → ¬ (Entitled i l.token r)
      → lookup i (handle parse ttl now r s).1 ≡ some l
  unfolding handle handle_create handle_heartbeat handle_remove handle_list with_body Entitled
  handle-Entitled ttl now (post_listing (decoded b) j t) s i l h n =
      ground (arith, lookup-create j t now b.fields s i l h n)
  handle-Entitled ttl now (post_listing too_large j t) s i l h n = h
  handle-Entitled ttl now (post_listing invalid_json j t) s i l h n = h
  handle-Entitled ttl now (put_listing j (decoded b)) s i l h n =
      ground (arith, lookup-heartbeat j b.token now b.fields s i l h n)
  handle-Entitled ttl now (put_listing j too_large) s i l h n = h
  handle-Entitled ttl now (put_listing j invalid_json) s i l h n = h
  handle-Entitled ttl now (delete_listing j (decoded t)) s i l h n = lookup-remove j t s i l h n
  handle-Entitled ttl now (delete_listing j too_large) s i l h n = h
  handle-Entitled ttl now (delete_listing j invalid_json) s i l h n = h
  handle-Entitled ttl now get_listings s i l h n = h
