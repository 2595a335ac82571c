-- ===== src/Session/Hub.antt =====
-- master/internal/session/hub.go. A `*Client` is a number, and the clients live in a store, so that
-- a room and its owners share them. A payload is text.
use layforge.Prelude.{
  ℕ, suc, Bool, true, false, not, String, str_eq, Option, none, some, List, [], ◌∷◌, ◌++◌,
  if◌then◌else◌, length, ltb, ◌==◌, lookup, insert, delete, ℕ_eq, string_eq,
}

abbrev pub outbox_size : ℕ
outbox_size = 16

-- `Client`: the outbox is its buffered messages, oldest first, with whether it is closed; the closer
-- is the connection that it ends.
pub record Client : Type 0 where
  pub campaign_id : String
  pub sender_id : String
  pub outbox : List String
  pub is_closed : Bool
  pub closer : Option ℕ

-- `Hub`. A room is the set of its clients, in the order in which Go's map iterates over them.
pub record Hub : Type 0 where
  pub clients : List (ℕ × Client)
  pub rooms : List (String × List ℕ)
  pub next : ℕ

abbrev pub new_hub : Hub
new_hub = record { clients = []; rooms = []; next = 0 }

-- `h.rooms[campaignID]`, where a missing room is nil.
unfoldable pub room : Hub → String → List ℕ
room h campaign = elim (lookup campaign h.rooms) [ none ↦ [] | some r ↦ r ]

unfoldable pub register : String → String → Hub → ℕ × Hub
unfolding room
register campaign sender h = (
  h.next,
  record {
    clients =
        insert h.next
          (record {
            campaign_id = campaign;
            sender_id = sender;
            outbox = [];
            is_closed = false;
            closer = none;
          })
          h.clients;
    rooms = insert campaign (h.next ∷ room h campaign) h.rooms;
    next = suc h.next;
  },
)

-- `delete(room, c)`
unfoldable pub leave : ℕ → List ℕ → List ℕ
leave c [] = []
leave c (d ∷ r) = if d == c then leave c r else d ∷ leave c r

unfoldable pub unlisted : ℕ → String → Hub → List (String × List ℕ)
unfolding leave
unlisted c campaign h = elim (lookup campaign h.rooms) [
  | none ↦ h.rooms
  | some r ↦ elim (leave c r) [
    | [] ↦ delete campaign (insert campaign [] h.rooms)
    | d ∷ rest ↦ insert campaign (d ∷ rest) h.rooms
  ]
]

-- `Unregister`, where `none` is the panic of closing a closed channel.
unfoldable pub unregister : ℕ → Hub → Option Hub
unfolding unlisted
unregister c h = elim (lookup c h.clients) [
  | none ↦ none
  | some k ↦
      if k.is_closed
      then none
      else some (record h {
        clients = insert c (record k { is_closed = true }) h.clients;
        rooms = unlisted c k.campaign_id h;
      })
]

-- The select: a full outbox drops the message.
unfoldable pub offer : String → Client → Client
offer payload k =
    if ltb (length k.outbox) outbox_size then record k { outbox = k.outbox ++ payload ∷ [] } else k

-- One turn of a delivery loop, for the clients that the test admits.
unfoldable pub deliver_to : (Client → Bool) → String → ℕ → List (ℕ × Client) → List (ℕ × Client)
unfolding offer
deliver_to p payload c m = elim (lookup c m) [
  | none ↦ m
  | some k ↦ if p k then insert c (offer payload k) m else m
]

unfoldable pub deliver_all :
    (Client → Bool) → String → List ℕ → List (ℕ × Client) → List (ℕ × Client)
unfolding deliver_to
deliver_all p payload [] m = m
deliver_all p payload (c ∷ r) m = deliver_all p payload r (deliver_to p payload c m)

unfoldable pub deliver : (Client → Bool) → String → String → Hub → Hub
unfolding deliver_all room
deliver p campaign payload h = record h {
  clients = deliver_all p payload (room h campaign) h.clients;
}

unfoldable pub broadcast : String → String → Hub → Hub
unfolding deliver
broadcast campaign payload h = deliver (λ k. true) campaign payload h

unfoldable pub send_to_sender : String → String → String → Hub → Hub
unfolding deliver
send_to_sender campaign sender payload h =
    deliver (λ k. str_eq k.sender_id sender) campaign payload h

unfoldable pub broadcast_except_sender : String → String → String → Hub → Hub
unfolding deliver
broadcast_except_sender campaign excluded payload h =
    deliver (λ k. not (str_eq k.sender_id excluded)) campaign payload h

-- `SetCloser`, on a client that `Register` made.
unfoldable pub set_closer : ℕ → ℕ → Hub → Hub
set_closer c close h = elim (lookup c h.clients) [
  | none ↦ h
  | some k ↦ record h { clients = insert c (record k { closer = some close }) h.clients }
]

unfoldable pub closers_of : String → List ℕ → List (ℕ × Client) → List ℕ
closers_of sender [] m = []
closers_of sender (c ∷ r) m =
    let rest = closers_of sender r m in
    elim (lookup c m) [
      | none ↦ rest
      | some k ↦
          if str_eq k.sender_id sender
          then elim k.closer [ none ↦ rest | some f ↦ f ∷ rest ]
          else rest
    ]

-- `Kick`: the closers that it calls, and what it returns. It leaves the hub as it is.
unfoldable pub kick : String → String → Hub → List ℕ × Bool
unfolding closers_of room
kick campaign sender h =
    let closers = closers_of sender (room h campaign) h.clients in (closers, ltb 0 (length closers))

-- The owner's drain loop takes the oldest message from the outbox.
unfoldable pub receive : ℕ → Hub → Option String × Hub
receive c h = elim (lookup c h.clients) [
  | none ↦ (none, h)
  | some k ↦ elim k.outbox [
    | [] ↦ (none, h)
    | p ∷ ps ↦ (some p, record h { clients = insert c (record k { outbox = ps }) h.clients })
  ]
]
