-- ===== src/Session/Delivery.antt =====
-- master/internal/session/hub.go: who receives a message.
use layforge.Prelude.{
  ℕ, ◌≤◌, ltb, ◌++◌, take, take_short, take_full, length-append, Bool-cases, inl, inr, ap, sym, ◌∙◌,
  ◌≡◌, ◌≢◌, refl, Bool, true, false, not, ◌&&◌, String, str_eq, Option, none, some, List, [], ◌∷◌,
  if◌then◌else◌, ◌==◌, ==_iff, arith, length, lookup, string_eq, ℕ_eq, lookup-insert,
}
use layforge.Session.Hub.{
  outbox_size, Client, Hub, room, offer, deliver_to, deliver_all, deliver, broadcast,
  send_to_sender, broadcast_except_sender,
}

unfoldable pub has : ℕ → List ℕ → Bool
has c [] = false
has c (d ∷ r) = if d == c then true else has c r

unfoldable pub Distinct : List ℕ → Type 0
Distinct [] = Unit
Distinct (d ∷ r) = (has d r ≡ false) × Distinct r

-- A client's mailbox after a delivery to those that the test `b` and the filter admit.
unfoldable pub sent : Bool → (Client → Bool) → String → Option Client → Option Client
sent b p payload none = none
sent b p payload (some k) = some (if b && p k then offer payload k else k)

lookup-deliver_to :
    (p : Client → Bool) (payload : String) (d c : ℕ) (m : List (ℕ × Client))
    → lookup c (deliver_to p payload d m) ≡ sent (d == c) p payload (lookup c m)
unfolding deliver_to sent
lookup-deliver_to p payload d c m = go (lookup d m) refl
  where
    go :
        (o : Option Client)
        → lookup d m ≡ o
        → lookup c (deliver_to p payload d m) ≡ sent (d == c) p payload (lookup c m)
    go none e = ground (arith, ==_iff d c)
    go (some k) e = ground (arith, ==_iff d c, lookup-insert d c (offer payload k) m)

sent_twice :
    (a b : Bool) (p : Client → Bool) (payload : String) (o : Option Client)
    → (a ≡ true → b ≡ false)
    → sent b p payload (sent a p payload o) ≡ sent (if a then true else b) p payload o
unfolding sent
sent_twice a b p payload none h = refl
sent_twice true true p payload (some k) h = absurd (ground (arith, h refl))
sent_twice true false p payload (some k) h = refl
sent_twice false b p payload (some k) h = refl

pub lookup-deliver_all :
    (p : Client → Bool) (payload : String) (c : ℕ) (r : List ℕ) (m : List (ℕ × Client))
    → Distinct r
    → lookup c (deliver_all p payload r m) ≡ sent (has c r) p payload (lookup c m)
unfolding deliver_all has Distinct sent
lookup-deliver_all p payload c [] m h = ground arith
lookup-deliver_all p payload c (d ∷ r) m h =
    rw
      (
        lookup-deliver_all p payload c r (deliver_to p payload d m) h.1,
        lookup-deliver_to p payload d c m,
      )
      (sent_twice (d == c) (has c r) p payload (lookup c m) (λ e. ground (arith, ==_iff d c, h.0)))

-- The client is registered under the campaign and its connection has not ended.
unfoldable pub live_in : String → Option Client → Bool
live_in campaign none = false
live_in campaign (some k) = str_eq k.campaign_id campaign && not k.is_closed

-- The rooms list, without repetition, exactly the clients that are registered under each campaign
-- and not closed; no room is empty; a new client's number is unused; an outbox holds at most 16.
pub record WellFormed (h : Hub) : Type 0 where
  pub lists :
      (campaign : String) (c : ℕ) → has c (room h campaign) ≡ live_in campaign (lookup c h.clients)
  pub distinct : (campaign : String) → Distinct (room h campaign)
  pub nonempty : (campaign : String) → lookup campaign h.rooms ≢ some []
  pub fresh : (c : ℕ) → h.next ≤ c → lookup c h.clients ≡ none
  pub capped : (c : ℕ) (k : Client) → lookup c h.clients ≡ some k → length k.outbox ≤ outbox_size

pub lookup-deliver :
    (p : Client → Bool) (campaign payload : String) (h : Hub) (c : ℕ)
    → WellFormed h
    → lookup c (deliver p campaign payload h).clients
      ≡ sent (live_in campaign (lookup c h.clients)) p payload (lookup c h.clients)
unfolding deliver
lookup-deliver p campaign payload h c w =
    rw
      (
        lookup-deliver_all p payload c (room h campaign) h.clients (w.distinct campaign),
        w.lists campaign c,
      )
      refl

-- A client that the message is for has it at the end of its outbox, the first 16 messages of which
-- are kept; nothing else of the client changes.
unfoldable pub received : (Client → Bool) → String → Option Client → Option Client
received p payload none = none
received p payload (some k) =
    if p k then some (record k { outbox = take 16 (k.outbox ++ payload ∷ []) }) else some k

offer_lem :
    (payload : String) (k : Client)
    → length k.outbox ≤ outbox_size
    → offer payload k ≡ record k { outbox = take 16 (k.outbox ++ payload ∷ []) }
unfolding offer
offer_lem payload k h = elim (Bool-cases (ltb (length k.outbox) outbox_size)) [
  | inl e ↦ rw e (
      ap (λ z. record k { outbox = z })
        (sym (
          take_short 16 (k.outbox ++ payload ∷ [])
            (ground (arith, length-append k.outbox (payload ∷ []))))))
  | inr e ↦ rw e (
      ap (λ z. record k { outbox = z }) (sym (take_full 16 k.outbox (payload ∷ []) (ground arith))))
]

sent-received :
    (campaign payload : String) (p q : Client → Bool) (o : Option Client)
    → ((k : Client) → o ≡ some k → length k.outbox ≤ outbox_size)
    → ((k : Client) → q k ≡ (str_eq k.campaign_id campaign && not k.is_closed && p k))
    → sent (live_in campaign o) p payload o ≡ received q payload o
unfolding sent received live_in
sent-received campaign payload p q none h g = refl
sent-received campaign payload p q (some k) h g =
    ground (arith, offer_lem payload k (h k refl), g k)

deliver-received :
    (p q : Client → Bool) (campaign payload : String) (h : Hub) (c : ℕ)
    → WellFormed h
    → ((k : Client) → q k ≡ (str_eq k.campaign_id campaign && not k.is_closed && p k))
    → lookup c (deliver p campaign payload h).clients ≡ received q payload (lookup c h.clients)
deliver-received p q campaign payload h c w g =
    lookup-deliver p campaign payload h c w
    ∙ sent-received campaign payload p q (lookup c h.clients) (w.capped c) g

-- In a well-formed hub, each of the three deliveries puts the message at the end of the outbox of
-- exactly the clients that it is for (of the campaign, not closed, and, for two of them, with or
-- without the sender's id), once, unless 16 messages wait there already, when the message is lost;
-- every other client keeps its outbox, and nothing else of any client changes.
pub lookup-broadcasts :
    (campaign sender payload : String) (h : Hub) (c : ℕ)
    → WellFormed h
    → (lookup c (broadcast campaign payload h).clients
        ≡ received
            (λ k. str_eq k.campaign_id campaign && not k.is_closed)
            payload
            (lookup c h.clients))
      × (lookup c (send_to_sender campaign sender payload h).clients
          ≡ received
              (λ k. str_eq k.campaign_id campaign && not k.is_closed && str_eq k.sender_id sender)
              payload
              (lookup c h.clients))
      × (lookup c (broadcast_except_sender campaign sender payload h).clients
          ≡ received
              (λ k.
                str_eq k.campaign_id campaign && not k.is_closed && not (str_eq k.sender_id sender))
              payload
              (lookup c h.clients))
unfolding broadcast send_to_sender broadcast_except_sender
lookup-broadcasts campaign sender payload h c w = (
  deliver-received (λ k. true) _ campaign payload h c w (λ k. ground arith),
  deliver-received _ _ campaign payload h c w (λ k. refl),
  deliver-received _ _ campaign payload h c w (λ k. refl),
)
