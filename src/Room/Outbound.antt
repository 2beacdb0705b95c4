-- ===== src/Room/Outbound.antt =====
-- internal/room/room.go and fanout.go: what goes out to connections and to the bus.
--
-- Dropping a slow connection makes it leave, which may broadcast, which may drop another one. Each
-- leave that goes on removes a connection, so as much fuel as there are connections is enough.
pub mod Follows
pub mod Enough
use crdt_server.Base.{
  ℕ, zero, suc, List, [], ◌∷◌, Bool, true, false, ◌==◌, length, Option, none, some, if◌then◌else◌,
  Result, ok, err,
}
use crdt_server.Base.GoMap.{GoMap, lookup, delete, keys}
use crdt_server.Protocol.Messages.{write_awareness}
use crdt_server.Protocol.Awareness.Removal.{Removal, remove_clients}
use crdt_server.Room.{Room, Effect, sent, closed, published, did}

abbrev pub close_going_away : ℕ
close_going_away = 1001

abbrev pub close_protocol_error : ℕ
close_protocol_error = 1002

abbrev pub close_policy_violation : ℕ
close_policy_violation = 1008

abbrev pub kind_update : ℕ
kind_update = 0

abbrev pub kind_awareness : ℕ
kind_awareness = 1

abbrev pub kind_state_vector : ℕ
kind_state_vector = 2

-- Room.publish; the publisher's queue is taken to have space.
unfoldable pub publish : ℕ → List ℕ → Room → Room
publish kind payload r = if r.publishing then did (published kind payload) r else r

unfoldable pub next_answer : List Bool → Bool
next_answer [] = true
next_answer (b ∷ bs) = b

abbrev pub later_answers : List Bool → List Bool
later_answers [] = []
later_answers (b ∷ bs) = bs

-- `conn.Send(frame)`
unfoldable pub send : ℕ → List ℕ → Room → Room
send conn frame r = record r {
  answers = later_answers r.answers;
  effects = sent conn frame (next_answer r.answers) ∷ r.effects;
}

abbrev pub is_except : Option ℕ → ℕ → Bool
is_except none conn = false
is_except (some e) conn = e == conn

-- The first loop of broadcast: the connections that did not take the frame, and the room.
unfoldable pub send_each : List ℕ → List ℕ → Option ℕ → Room → List ℕ × Room
send_each [] frame except r = ([], r)
send_each (conn ∷ conns) frame except r =
    let skip = is_except except conn in
    let rest = send_each conns frame except (if skip then r else send conn frame r) in
    if skip then rest else (if next_answer r.answers then rest else (conn ∷ rest.0, rest.1))

unfoldable pub drop_each : (ℕ → Room → Room) → List ℕ → Room → Room
drop_each drop [] r = r
drop_each drop (conn ∷ conns) r = drop_each drop conns (drop conn r)

-- Room.broadcast, given dropSlow.
unfoldable pub broadcast_with : (ℕ → Room → Room) → List ℕ → Option ℕ → Room → Room
broadcast_with drop frame except r =
    let p = send_each (keys r.conns) frame except r in drop_each drop p.0 p.1

-- What leave does with the awareness update that RemoveClients gives; nil is the empty one.
unfoldable pub retract_with : (ℕ → Room → Room) → Result (List ℕ × List ℕ) → Room → Room
retract_with drop (err e) r = r
retract_with drop (ok (ids, [])) r = r
retract_with drop (ok (ids, b ∷ payload)) r =
    publish kind_awareness (b ∷ payload)
      (broadcast_with drop (write_awareness (b ∷ payload)) none r)

abbrev pub with_removal : (ℕ → Room → Room) → Removal → Room → Room
with_removal drop p r = retract_with drop p.1 (record r { awareness = p.0 })

-- `delete(r.conns, conn)` and the time of the last departure.
unfoldable pub without_conn : ℕ → Room → Room
without_conn conn r =
    let left = delete conn r.conns in
    record r { conns = left; last_empty = elim left [ [] ↦ some r.now | _ ∷ _ ↦ r.last_empty ] }

-- leave for a connection of the room with the clients that it announced.
unfoldable pub depart : (ℕ → Room → Room) → ℕ → List ℕ → Room → Room
depart drop conn [] r = without_conn conn r
depart drop conn (id ∷ ids) r =
    with_removal drop (remove_clients r.awareness (id ∷ ids) r.now) (without_conn conn r)

-- Room.leave
unfoldable pub leave_at : ℕ → ℕ → Room → Room
leave_at zero conn r = r
leave_at (suc fuel) conn r = elim (lookup conn r.conns) [
  | none ↦ r
  | some ids ↦ depart (λ c s. did (closed c close_policy_violation) (leave_at fuel c s)) conn ids r
]

unfoldable pub leave : ℕ → Room → Room
leave conn r = leave_at (length r.conns) conn r

-- Room.drop
unfoldable pub drop : ℕ → ℕ → Room → Room
drop conn code r = did (closed conn code) (leave conn r)

-- Room.dropSlow
unfoldable pub drop_slow : ℕ → Room → Room
drop_slow conn r = drop conn close_policy_violation r

-- Room.broadcast
unfoldable pub broadcast : List ℕ → Option ℕ → Room → Room
broadcast frame except r = broadcast_with drop_slow frame except r

-- Room.deliver, with whether the frame went out.
unfoldable pub deliver : ℕ → List ℕ → Room → Bool × Room
deliver conn frame r =
    let s = send conn frame r in
    if next_answer r.answers then (true, s) else (false, drop_slow conn s)
