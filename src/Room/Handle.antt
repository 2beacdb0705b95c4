-- ===== src/Room/Handle.antt =====
-- internal/room/room.go, read.go, write.go and versions.go: the commands of a room, and its end.
pub mod Follows
pub mod Sound
pub mod Commands
pub mod Received
use crdt_server.Base.{
  ℕ, ◌-◌, List, [], ◌∷◌, Bool, true, false, not, ◌||◌, ltb, length, Option, none, some,
  if◌then◌else◌, Result, ok, err, and_then, no_versioning,
}
use crdt_server.Base.GoMap.{GoMap, lookup, insert, keys}
use crdt_server.Crdt.Doc.{Doc}
use crdt_server.Crdt.Doc.Queue.{apply_update}
use crdt_server.Crdt.Doc.Sync.{encode_state_vector, encode_state_as_update, encode_diff}
use crdt_server.Protocol.Messages.{write_awareness}
use crdt_server.Protocol.Awareness.Removal.{Removal, sweep}
use crdt_server.Room.{
  Config, Room, Snapshot, Effect, closed, read_reply, merge_reply, version_reply, evicted, exited,
  did,
}
use crdt_server.Room.Outbound.{close_going_away, broadcast, leave}
use crdt_server.Room.Persist.{measure, request_compaction, queue_version, version_tick}
use crdt_server.Room.Events.{emit_hooks}
use crdt_server.Room.Client.{touch_document, relay_update, take_frame}
use crdt_server.Room.Remote.{announce, is_nil}

pub data Command : Type 0 where
  join leave_room : ℕ → Command
  frame : ℕ → List ℕ → Command
  tick evict : Command
  -- A read with its state vector, an update of the admin API, a version with its label.
  read merge version : List ℕ → Command

-- Room.join
unfoldable pub join_room : ℕ → Room → Room
join_room conn r = elim (lookup conn r.conns) [
  | some _ ↦ r
  | none ↦ record r { conns = insert conn [] r.conns; last_empty = none }
]

unfoldable pub close_each : List ℕ → ℕ → Room → Room
close_each [] code r = r
close_each (conn ∷ conns) code r = close_each conns code (did (closed conn code) r)

-- finishPersisting
unfoldable pub finish_persisting : Room → Room
finish_persisting r = record (request_compaction r) { persisting = false }

-- Room.stop, up to the handover of the mailbox.
unfoldable pub stop : ℕ → Room → Room
stop code r =
    let s = emit_hooks r.now r in
    let left = did exited (record (close_each (keys s.conns) code s) { conns = [] }) in
    emit_hooks r.now (finish_persisting (record left { publishing = false }))

-- Room.evict
unfoldable pub evict_room : Room → Room
evict_room r = stop close_going_away (did evicted r)

unfoldable pub tell_swept : Result (List ℕ × List ℕ) → Room → Room
tell_swept (err _) r = r
tell_swept (ok (ids, [])) r = r
tell_swept (ok (ids, b ∷ payload)) r = broadcast (write_awareness (b ∷ payload)) none r

abbrev pub with_swept : Removal → Room → Room
with_swept p r = tell_swept p.1 (record r { awareness = p.0 })

-- What tick does before it looks whether the room is idle.
unfoldable pub tick_over : Room → Room
tick_over r =
    let s = measure r.now r in
    version_tick r.now (
      emit_hooks r.now
        (announce r.now (with_swept (sweep s.awareness r.now r.cfg.awareness_ttl) s)))

-- The condition on which tick evicts the room.
unfoldable pub is_idle : ℕ → Room → Bool
is_idle now r = elim r.last_empty [
  | none ↦ false
  | some at ↦ if is_nil r.conns then not (ltb (now - at) r.cfg.idle_timeout) else false
]

-- Room.tick
unfoldable pub tick_room : Room → Bool × Room
tick_room r = let s = tick_over r in if is_idle r.now s then (true, evict_room s) else (false, s)

-- encodeSnapshot
unfoldable pub encode_snapshot : Doc → List ℕ → Result (List ℕ × List ℕ)
encode_snapshot d sv =
    and_then (if is_nil sv then encode_state_as_update d [] else encode_diff d sv)
      (λ u. and_then (encode_state_vector d) (λ ours. ok (u, ours)))

-- Room.read
unfoldable pub read_room : List ℕ → Room → Room
read_room sv r =
    did
      (read_reply (
        and_then (encode_snapshot r.doc sv) (λ p. ok (record {
          update = p.0;
          state_vector = p.1;
          clients = some (length r.conns);
          resident = true;
          skipped = 0;
        }))))
      r

-- Room.merge
unfoldable pub merge_room : List ℕ → Room → Room
merge_room u r = elim (apply_update r.doc u) [
  | err e ↦ did (merge_reply (err e)) (touch_document r)
  | ok d ↦ did (merge_reply (ok tt)) (relay_update none u d (touch_document r))
]

-- Room.takeVersion
unfoldable pub version_room : List ℕ → Room → Room
version_room label r =
    if r.versioning
    then did (version_reply (ok tt))
        (queue_version label 0 (record r { version_dirty = false; last_version = some r.now }))
    else did (version_reply (err no_versioning)) r

-- Room.handle, with whether the room evicted itself.
unfoldable pub handle : Command → Room → Bool × Room
handle (join conn) r = (false, join_room conn r)
handle (leave_room conn) r = (false, leave conn r)
handle (frame conn b) r = (false, take_frame conn b r)
handle tick r = tick_room r
handle (read sv) r = (false, read_room sv r)
handle (merge u) r = (false, merge_room u r)
handle (version label) r = (false, version_room label r)
handle evict r = if is_nil r.conns then (true, evict_room r) else (false, r)
