-- ===== src/Session/Registry.antt =====
-- master/internal/session/hub.go: what every operation keeps of the hub.
use layforge.Prelude.{
  ℕ, ◌≤◌, ◌≡◌, ◌≢◌, refl, sym, ◌∙◌, subst, Bool, true, false, not, String, str_eq, str_eq_iff,
  Option, none, some, List, [], ◌∷◌, if◌then◌else◌, ◌==◌, ==_iff, arith, length, length-append,
  lookup, insert, string_eq, ℕ_eq, lookup-insert, lookup-delete,
}
use layforge.Session.Hub.{
  outbox_size, Client, Hub, new_hub, room, register, leave, unlisted, unregister, offer, deliver,
  broadcast, send_to_sender, broadcast_except_sender, set_closer, receive,
}
use layforge.Session.Delivery.{has, Distinct, sent, live_in, WellFormed, lookup-deliver}

has-leave : (c d : ℕ) (r : List ℕ) → has d (leave c r) ≡ (if c == d then false else has d r)
unfolding has leave
has-leave c d [] = ground arith
has-leave c d (e ∷ r) = ground (arith, has-leave c d r)

leave-Distinct : (c : ℕ) (r : List ℕ) → Distinct r → Distinct (leave c r)
unfolding Distinct leave
leave-Distinct c [] h = tt
leave-Distinct c (d ∷ r) h = ground (arith, has-leave c d r, leave-Distinct c r h.1)

pub new_hub-WellFormed : WellFormed new_hub
unfolding lookup room has Distinct live_in
new_hub-WellFormed = record {
  lists = λ a c. refl;
  distinct = λ a. tt;
  nonempty = λ a e. ground arith;
  fresh = λ c l. refl;
  capped = λ c k e. absurd (ground arith);
}

sent_capped :
    (b : Bool) (p : Client → Bool) (payload : String) (o : Option Client) (k : Client)
    → ((j : Client) → o ≡ some j → length j.outbox ≤ outbox_size)
    → sent b p payload o ≡ some k
    → length k.outbox ≤ outbox_size
unfolding sent offer
sent_capped b p payload none k h e = absurd (ground arith)
sent_capped b p payload (some j) k h e =
    ground (arith, h j refl, length-append j.outbox (payload ∷ []))

live_in-sent :
    (campaign : String) (b : Bool) (p : Client → Bool) (payload : String) (o : Option Client)
    → live_in campaign (sent b p payload o) ≡ live_in campaign o
unfolding sent offer live_in
live_in-sent campaign b p payload none = refl
live_in-sent campaign b p payload (some k) = ground arith

deliver-WellFormed :
    (p : Client → Bool) (campaign payload : String) (h : Hub)
    → WellFormed h
    → WellFormed (deliver p campaign payload h)
unfolding deliver room sent
deliver-WellFormed p campaign payload h w = record {
  lists = λ a c.
      rw
        (
          lookup-deliver p campaign payload h c w,
          live_in-sent a (live_in campaign (lookup c h.clients)) p payload (lookup c h.clients),
        )
        (w.lists a c);
  distinct = w.distinct;
  nonempty = w.nonempty;
  fresh = λ c l. rw (lookup-deliver p campaign payload h c w, w.fresh c l) refl;
  capped = λ c k e.
      sent_capped (live_in campaign (lookup c h.clients)) p payload (lookup c h.clients) k
        (w.capped c) (sym (lookup-deliver p campaign payload h c w) ∙ e);
}

register-WellFormed :
    (campaign sender : String) (h : Hub) → WellFormed h → WellFormed (register campaign sender h).1
unfolding register room live_in has Distinct
register-WellFormed campaign sender h w = record {
  lists = λ a c. ground (
    arith,
    str_eq_iff campaign a,
    ==_iff h.next c,
    lookup-insert campaign a (h.next ∷ room h campaign) h.rooms,
    lookup-insert h.next c newcomer h.clients,
    w.lists a c,
    w.lists campaign c,
    w.fresh h.next,
  );
  distinct = λ a. ground (
    arith,
    str_eq_iff campaign a,
    lookup-insert campaign a (h.next ∷ room h campaign) h.rooms,
    w.distinct a,
    w.distinct campaign,
    w.lists campaign h.next,
    w.fresh h.next (omega arith),
  );
  nonempty = λ a.
      ground (arith, lookup-insert campaign a (h.next ∷ room h campaign) h.rooms, w.nonempty a);
  fresh =
      λ c l. ground (arith, ==_iff h.next c, lookup-insert h.next c newcomer h.clients, w.fresh c);
  capped = λ c k e. ground (arith, lookup-insert h.next c newcomer h.clients, w.capped c k);
}
  where
    newcomer : Client
    newcomer = record {
      campaign_id = campaign;
      sender_id = sender;
      outbox = [];
      is_closed = false;
      closer = none;
    }

-- What the rooms hold once `c` has left its own.
room-unlisted :
    (c : ℕ) (campaign a : String) (h : Hub)
    → room (record h { rooms = unlisted c campaign h }) a
      ≡ (if str_eq campaign a then leave c (room h a) else room h a)
unfolding room unlisted leave
room-unlisted c campaign a h = go (lookup campaign h.rooms) refl
  where
    go :
        (o : Option (List ℕ))
        → lookup campaign h.rooms ≡ o
        → room (record h { rooms = unlisted c campaign h }) a
          ≡ (if str_eq campaign a then leave c (room h a) else room h a)
    go none e = ground (arith, str_eq_iff campaign a)
    go (some r) e = ground (
      arith,
      str_eq_iff campaign a,
      lookup-insert campaign a (leave c r) h.rooms,
      lookup-delete campaign a (insert campaign [] h.rooms),
      lookup-insert campaign a [] h.rooms,
    )

unlisted_nonempty :
    (c : ℕ) (campaign a : String) (h : Hub)
    → ((b : String) → lookup b h.rooms ≢ some [])
    → lookup a (unlisted c campaign h) ≢ some []
unfolding unlisted
unlisted_nonempty c campaign a h n = go (lookup campaign h.rooms) refl
  where
    go :
        (o : Option (List ℕ))
        → lookup campaign h.rooms ≡ o
        → lookup a (unlisted c campaign h) ≢ some []
    go none e = ground (arith, n a)
    go (some r) e = ground (
      arith,
      str_eq_iff campaign a,
      n a,
      lookup-insert campaign a (leave c r) h.rooms,
      lookup-delete campaign a (insert campaign [] h.rooms),
      lookup-insert campaign a [] h.rooms,
    )

-- The hub once the client `k`, stored as `c`, is gone.
without-WellFormed :
    (c : ℕ) (k : Client) (h : Hub)
    → WellFormed h
    → lookup c h.clients ≡ some k
    → WellFormed (record h {
      clients = insert c (record k { is_closed = true }) h.clients;
      rooms = unlisted c k.campaign_id h;
    })
unfolding live_in room
without-WellFormed c k h w g = record {
  lists = λ a d. ground (
    arith,
    room-unlisted c k.campaign_id a h,
    has-leave c d (room h a),
    ==_iff c d,
    str_eq_iff k.campaign_id a,
    lookup-insert c d gone h.clients,
    w.lists a d,
  );
  distinct = λ a.
      ground (arith, room-unlisted c k.campaign_id a h, w.distinct a, leave-Distinct c (room h a));
  nonempty = λ a. unlisted_nonempty c k.campaign_id a h w.nonempty;
  fresh = λ d l. ground (arith, ==_iff c d, w.fresh d, lookup-insert c d gone h.clients);
  capped = λ d j f.
      ground (arith, ==_iff c d, w.capped d j, w.capped c k, lookup-insert c d gone h.clients);
}
  where
    gone : Client
    gone = record k { is_closed = true }

unregister-WellFormed :
    (c : ℕ) (h h' : Hub) → WellFormed h → unregister c h ≡ some h' → WellFormed h'
unfolding unregister
unregister-WellFormed c h h' w e = go (lookup c h.clients) refl
  where
    go : (o : Option Client) → lookup c h.clients ≡ o → WellFormed h'
    go none g = absurd (ground arith)
    go (some k) g = subst WellFormed (ground arith) (without-WellFormed c k h w g)

-- A client with the same campaign, the same state and a bounded outbox may replace another.
replace-WellFormed :
    (c : ℕ) (k j : Client) (h : Hub)
    → WellFormed h
    → lookup c h.clients ≡ some k
    → j.campaign_id ≡ k.campaign_id
    → j.is_closed ≡ k.is_closed
    → length j.outbox ≤ length k.outbox
    → WellFormed (record h { clients = insert c j h.clients })
unfolding live_in room
replace-WellFormed c k j h w g same live l = record {
  lists = λ a d. ground (arith, ==_iff c d, lookup-insert c d j h.clients, w.lists a d);
  distinct = w.distinct;
  nonempty = w.nonempty;
  fresh = λ d l. ground (arith, ==_iff c d, w.fresh d, lookup-insert c d j h.clients);
  capped = λ d i f.
      ground (arith, ==_iff c d, w.capped d i, w.capped c k, lookup-insert c d j h.clients);
}

set_closer-WellFormed : (c f : ℕ) (h : Hub) → WellFormed h → WellFormed (set_closer c f h)
unfolding set_closer
set_closer-WellFormed c f h w = go (lookup c h.clients) refl
  where
    go : (o : Option Client) → lookup c h.clients ≡ o → WellFormed (set_closer c f h)
    go none g = rw (g, set_closer) w
    go (some k) g =
        rw (g, set_closer)
          (replace-WellFormed c k (record k { closer = some f }) h w g refl refl (omega arith))

receive-WellFormed : (c : ℕ) (h : Hub) → WellFormed h → WellFormed (receive c h).1
unfolding receive
receive-WellFormed c h w = go (lookup c h.clients) refl
  where
    after :
        (k : Client) (b : List String)
        → k.outbox ≡ b
        → lookup c h.clients ≡ some k
        → WellFormed (receive c h).1
    after k [] e g = rw (g, e, receive) w
    after k (p ∷ ps) e g =
        rw (g, e, receive)
          (replace-WellFormed c k (record k { outbox = ps }) h w g refl refl (ground arith))

    go : (o : Option Client) → lookup c h.clients ≡ o → WellFormed (receive c h).1
    go none g = rw (g, receive) w
    go (some k) g = after k k.outbox refl g

-- The calls on a hub; `Kick` leaves it as it is.
pub data Call : Type 0 where
  registering : String → String → Call
  unregistering : ℕ → Call
  broadcasting : String → String → Call
  sending : String → String → String → Call
  excepting : String → String → String → Call
  setting_closer : ℕ → ℕ → Call
  receiving : ℕ → Call

-- `none` is a panic.
unfoldable pub run : Call → Hub → Option Hub
unfolding register unregister broadcast send_to_sender broadcast_except_sender set_closer receive
run (registering a b) h = some (register a b h).1
run (unregistering c) h = unregister c h
run (broadcasting a m) h = some (broadcast a m h)
run (sending a b m) h = some (send_to_sender a b m h)
run (excepting a b m) h = some (broadcast_except_sender a b m h)
run (setting_closer c f) h = some (set_closer c f h)
run (receiving c) h = some (receive c h).1

-- A call that does not panic keeps the hub well-formed: its rooms list, without repetition, exactly
-- the clients that are registered and not closed, no room is empty, new clients get unused numbers, and
-- no outbox holds more than 16 messages.
pub run-WellFormed : (a : Call) (h h' : Hub) → WellFormed h → run a h ≡ some h' → WellFormed h'
unfolding run broadcast send_to_sender broadcast_except_sender
run-WellFormed (registering a b) h h' w e =
    subst WellFormed (ground arith) (register-WellFormed a b h w)
run-WellFormed (unregistering c) h h' w e = unregister-WellFormed c h h' w e
run-WellFormed (broadcasting a m) h h' w e =
    subst WellFormed (ground arith) (deliver-WellFormed (λ k. true) a m h w)
run-WellFormed (sending a b m) h h' w e =
    subst WellFormed (ground arith) (deliver-WellFormed (λ k. str_eq k.sender_id b) a m h w)
run-WellFormed (excepting a b m) h h' w e =
    subst WellFormed (ground arith) (deliver-WellFormed (λ k. not (str_eq k.sender_id b)) a m h w)
run-WellFormed (setting_closer c f) h h' w e =
    subst WellFormed (ground arith) (set_closer-WellFormed c f h w)
run-WellFormed (receiving c) h h' w e = subst WellFormed (ground arith) (receive-WellFormed c h w)
