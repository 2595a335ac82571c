-- ===== src/Lobby/Keyed.antt =====
-- registry/internal/lobby: what every operation keeps of the store.
use layforge.Prelude.{
  ◌≤◌, ◌≡◌, refl, inl, inr, not, String, str_eq, str_eq_iff, Option, none, some, Bool-cases, leb, ℤ,
  arith, length, lookup, insert, delete, string_eq, IsMap, lookup-insert, lookup-delete,
  lookup-keep_if, insert-IsMap, delete-IsMap, keep_if-IsMap, length-insert, length-delete-le,
  length-keep_if-le,
}
use layforge.Lobby.Store.{
  Fields, Listing, Store, max_listings, create, heartbeat, remove, sweep, stale,
}
use layforge.Lobby.Handlers.{
  Url, decoded, too_large, invalid_json, Request, post_listing, put_listing, delete_listing,
  get_listings, with_body, handle_create, handle_heartbeat, handle_remove, handle_list, handle,
}

-- Each key has one listing, which carries that key as its id, and the cap holds.
pub record Keyed (s : Store) : Type 0 where
  pub is_map : IsMap s
  pub capped : length s ≤ max_listings
  pub own_id : (i : String) (l : Listing) → lookup i s ≡ some l → l.id ≡ i

pub create-Keyed :
    (i t : Option String) (now : ℤ) (f : Fields) (s : Store)
    → Keyed s
    → Keyed (create i t now f s).1
unfolding create
create-Keyed none t now f s k = k
create-Keyed (some i) none now f s k = k
create-Keyed (some i) (some t) now f s k = elim (Bool-cases (leb max_listings (length s))) [
  | inl e ↦ rw e k
  | inr e ↦ rw e (record {
    is_map = insert-IsMap i _ s k.is_map;
    capped =
        ground (
          arith,
          length-insert i (record { id = i; token = t; fields = f; last_heartbeat = now }) s,
        );
    own_id = λ j l h. ground (
      arith,
      str_eq_iff i j,
      k.own_id j l,
      lookup-insert i j (record { id = i; token = t; fields = f; last_heartbeat = now }) s,
    );
  })
]

-- A listing may be stored again under its own id.
replace-Keyed :
    (i : String) (l m : Listing) (s : Store)
    → Keyed s
    → lookup i s ≡ some l
    → m.id ≡ l.id
    → Keyed (insert i m s)
replace-Keyed i l m s k h e = record {
  is_map = insert-IsMap i m s k.is_map;
  capped = ground (arith, length-insert i m s, k.capped);
  own_id =
      λ j n g. ground (arith, str_eq_iff i j, k.own_id j n, k.own_id i l, lookup-insert i j m s);
}

pub heartbeat-Keyed :
    (i t : String) (now : ℤ) (f : Fields) (s : Store) → Keyed s → Keyed (heartbeat i t now f s).1
unfolding heartbeat
heartbeat-Keyed i t now f s k = go (lookup i s) refl
  where
    go : (o : Option Listing) → lookup i s ≡ o → Keyed (heartbeat i t now f s).1
    go none h = rw (h, heartbeat) k
    go (some l) h =
        rw (h, heartbeat)
          (elim (Bool-cases (str_eq l.token t)) [
            | inl e ↦
                rw e (replace-Keyed i l (record l { fields = f; last_heartbeat = now }) s k h refl)
            | inr e ↦ rw e k
          ])

delete-Keyed : (i : String) (s : Store) → Keyed s → Keyed (delete i s)
delete-Keyed i s k = record {
  is_map = delete-IsMap i s k.is_map;
  capped = ground (arith, length-delete-le i s, k.capped);
  own_id = λ j n g. ground (arith, k.own_id j n, lookup-delete i j s);
}

pub remove-Keyed : (i t : String) (s : Store) → Keyed s → Keyed (remove i t s).1
unfolding remove
remove-Keyed i t s k = go (lookup i s) refl
  where
    go : (o : Option Listing) → lookup i s ≡ o → Keyed (remove i t s).1
    go none h = rw (h, remove) k
    go (some l) h =
        rw (h, remove)
          (elim (Bool-cases (str_eq l.token t)) [
            | inl e ↦ rw e (delete-Keyed i s k)
            | inr e ↦ rw e k
          ])

-- `Sweep` keeps the invariant too.
pub sweep-Keyed : (now ttl : ℤ) (s : Store) → Keyed s → Keyed (sweep now ttl s)
unfolding sweep
sweep-Keyed now ttl s k = record {
  is_map = keep_if-IsMap _ s k.is_map;
  capped = ground (arith, length-keep_if-le (λ l. not (stale now ttl l)) s, k.capped);
  own_id = λ j n g.
      ground (arith, k.own_id j n, lookup-keep_if (λ l. not (stale now ttl l)) j s k.is_map);
}

module _ (parse : String → Option Url) where
  -- Every request, whatever its route, its body and the random identifiers, leaves a store in which
  -- each key has one listing that carries that key as its id, and at most 10,000 listings are
  -- held, if it found such a store.
  pub handle-Keyed :
      (ttl now : ℤ) (r : Request) (s : Store) → Keyed s → Keyed (handle parse ttl now r s).1
  unfolding handle handle_create handle_heartbeat handle_remove handle_list with_body
  handle-Keyed ttl now (post_listing (decoded b) i t) s k =
      ground (arith, create-Keyed i t now b.fields s k)
  handle-Keyed ttl now (post_listing too_large i t) s k = k
  handle-Keyed ttl now (post_listing invalid_json i t) s k = k
  handle-Keyed ttl now (put_listing i (decoded b)) s k =
      ground (arith, heartbeat-Keyed i b.token now b.fields s k)
  handle-Keyed ttl now (put_listing i too_large) s k = k
  handle-Keyed ttl now (put_listing i invalid_json) s k = k
  handle-Keyed ttl now (delete_listing i (decoded t)) s k = remove-Keyed i t s k
  handle-Keyed ttl now (delete_listing i too_large) s k = k
  handle-Keyed ttl now (delete_listing i invalid_json) s k = k
  handle-Keyed ttl now get_listings s k = k
