-- ===== src/Session/Tests.antt =====
-- The hub on two connections.
use layforge.Prelude.{
  ◌≡◌, ◌&&◌, refl, false, not, str_eq, none, some, [], ◌∷◌, lookup, insert, ℕ_eq, string_eq,
}
use layforge.Session.Hub.{
  Client, Hub, new_hub, register, broadcast, send_to_sender, broadcast_except_sender,
}
use layforge.Session.Delivery.{received, WellFormed, lookup-broadcasts}
use layforge.Session.Registry.{registering, run, new_hub-WellFormed, run-WellFormed}

abbrev alice : Client
alice = record {
  campaign_id = "c";
  sender_id = "alice";
  outbox = [];
  is_closed = false;
  closer = none;
}

abbrev one_client : Hub
one_client = record { clients = (0, alice) ∷ []; rooms = ("c", 0 ∷ []) ∷ []; next = 1 }

first_call : run (registering "c" "alice") new_hub ≡ some one_client
unfolding run register insert lookup
first_call = refl

run-WellFormed_example : WellFormed one_client
run-WellFormed_example =
    run-WellFormed (registering "c" "alice") new_hub one_client new_hub-WellFormed first_call

lookup-broadcasts_example :
    (lookup 0 (broadcast "c" "hello" one_client).clients
      ≡ received
          (λ k. str_eq k.campaign_id "c" && not k.is_closed)
          "hello"
          (lookup 0 one_client.clients))
    × (lookup 0 (send_to_sender "c" "alice" "hello" one_client).clients
        ≡ received
            (λ k. str_eq k.campaign_id "c" && not k.is_closed && str_eq k.sender_id "alice")
            "hello"
            (lookup 0 one_client.clients))
    × (lookup 0 (broadcast_except_sender "c" "alice" "hello" one_client).clients
        ≡ received
            (λ k. str_eq k.campaign_id "c" && not k.is_closed && not (str_eq k.sender_id "alice"))
            "hello"
            (lookup 0 one_client.clients))
lookup-broadcasts_example =
    lookup-broadcasts "c" "alice" "hello" one_client 0
      (run-WellFormed (registering "c" "alice") new_hub one_client new_hub-WellFormed first_call)
