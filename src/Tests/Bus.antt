-- ===== src/Tests/Bus.antt =====
-- A bus with two rooms.
use crdt_server.Base.{[], ◌∷◌, ◌≡◌, refl, false, arith, ok}
use crdt_server.Cluster.Envelope.{Envelope}
use crdt_server.Cluster.Memory.{Memory, subs_of, set_subs, deliveries, publish, subscribe}
use crdt_server.Cluster.Memory.Delivery.{publish-subscribe}

-- Rooms "a" and "b", with the subscriptions 1 and 2, and 3.
abbrev two_rooms : Memory
two_rooms = record {
  subs = (97 ∷ [], 1 ∷ 2 ∷ []) ∷ (98 ∷ [], 3 ∷ []) ∷ [];
  closed = false;
  done = 4 ∷ [];
}

abbrev with_five : Memory
with_five = record two_rooms { subs = (97 ∷ [], 1 ∷ 2 ∷ 5 ∷ []) ∷ (98 ∷ [], 3 ∷ []) ∷ [] }

abbrev message : Envelope
message = record { origin = 300; kind = 1; payload = 4 ∷ 5 ∷ [] }

publish-subscribe_example :
    publish with_five (97 ∷ []) message ≡ ok ((1, message) ∷ (2, message) ∷ (5, message) ∷ [])
unfolding subscribe set_subs subs_of deliveries
publish-subscribe_example =
    publish-subscribe two_rooms with_five (97 ∷ []) (97 ∷ []) 5 message
      (omega arith, omega arith, omega arith) refl
