-- ===== src/Room/Handle/Received.antt =====
-- What the envelopes of other replicas do to a room.
use crdt_server.Base.{
  if_both, ℕ, ◌≤◌, List, [], ◌∷◌, true, false, ◌==◌, ◌≡◌, refl, Result-cases, inl, inr, Option,
  none, some, Error,
}
use crdt_server.Crdt.Doc.Queue.{apply_update}
use crdt_server.Crdt.Doc.Sync.{encode_diff}
use crdt_server.Crdt.Store.{state}
use crdt_server.Cluster.Envelope.{Envelope}
use crdt_server.Protocol.Awareness
use crdt_server.Protocol.Awareness.{encode}
use crdt_server.Protocol.Awareness.Bounds.{apply_update-IsWellFormed}
use crdt_server.Protocol.Messages.{write_update, write_awareness}
use crdt_server.Room.{Room}
use crdt_server.Room.Outbound.{kind_update, kind_awareness, kind_state_vector}
use crdt_server.Room.Outbound.Follows.{
  Follows, Follows-same, Follows-then, broadcast-Follows, with_awareness-Follows, count_writes,
}
use crdt_server.Room.Client.{touch_document, with_doc, is_empty_update}
use crdt_server.Room.Remote.{
  take_remote_update, remote_update, tell_awareness, take_remote_awareness, remote_awareness,
  answer_state_vector, remote_envelope, receive,
}
use crdt_server.Room.Handle.Sound.{
  IsWellFormed, Moves, Moves-same, Moves-Follows, Moves-fields, publish-Moves, IsBoundedBytes,
  with_doc-Moves,
}
use crdt_server.Room.Handle.Commands.{Follows-Moves, touched}

-- A well-formed room afterwards, with as many writes as before.
record Quietly (r s : Room) : Type 0 where
  moves : Moves r.doc s
  writes : count_writes s.effects ≡ count_writes r.effects

Quietly-Follows : {r s : Room} → IsWellFormed r → Follows r s → Quietly r s
Quietly-Follows w f = record { moves = Follows-Moves w f; writes = f.writes }

remote_update-Quietly :
    (u : List ℕ) (r : Room) → IsWellFormed r → IsBoundedBytes u → Quietly r (remote_update u r)
unfolding remote_update take_remote_update
remote_update-Quietly u r w h = elim (Result-cases (apply_update r.doc u)) [
  | inl (x, e) ↦
      rw (e, take_remote_update) (record { moves = Moves-same (touched r w); writes = refl })
  | inr (d, e) ↦
      let s = record (with_doc d (touch_document r)) { version_dirty = true } in
      let sent = broadcast-Follows (write_update u) none s in
      let first = with_doc-Moves d u (touched r w) h e in
      rw (e, take_remote_update)
        (record {
          moves = Moves-Follows (Moves-fields {s = s} first refl refl refl refl) sent;
          writes = sent.writes;
        })
]

tell_awareness-Follows : (cs : List ℕ) (r : Room) → Follows r (tell_awareness cs r)
unfolding tell_awareness
tell_awareness-Follows cs r = elim (Result-cases (encode r.awareness cs)) [
  | inl (x, e) ↦ rw (e, tell_awareness) (Follows-same r)
  | inr (out, e) ↦ rw (e, tell_awareness) (broadcast-Follows (write_awareness out) none r)
]

take_remote_awareness-Follows :
    (failure : Option Error) (cs : List ℕ) (r : Room)
    → Follows r (take_remote_awareness failure cs r)
unfolding take_remote_awareness
take_remote_awareness-Follows (some e) cs r = Follows-same r
take_remote_awareness-Follows none [] r = Follows-same r
take_remote_awareness-Follows none (c ∷ cs) r = tell_awareness-Follows (c ∷ cs) r

remote_awareness-Follows : (payload : List ℕ) (r : Room) → Follows r (remote_awareness payload r)
unfolding remote_awareness
remote_awareness-Follows payload r =
    let a = Awareness.apply_update r.awareness payload r.now in
    Follows-then
      (with_awareness-Follows a.awareness r (apply_update-IsWellFormed r.awareness payload r.now))
      (take_remote_awareness-Follows a.failure a.changed _)

answer_state_vector-Moves :
    (sv : List ℕ) (r : Room) → IsWellFormed r → Moves r.doc (answer_state_vector sv r)
unfolding answer_state_vector
answer_state_vector-Moves sv r w = elim (Result-cases (encode_diff r.doc sv)) [
  | inl (x, e) ↦ rw (e, answer_state_vector) (Moves-same w)
  | inr (diff, e) ↦
      rw (e, answer_state_vector)
        (if_both (Moves _) (is_empty_update diff) (Moves-same w)
          (publish-Moves kind_update diff (Moves-same w)))
]

-- The kinds other than a state vector.
quiet_envelope :
    (env : Envelope) (r : Room)
    → IsWellFormed r
    → IsBoundedBytes env.payload
    → (env.kind == kind_state_vector) ≡ false
    → Quietly r (remote_envelope env r)
unfolding remote_envelope
quiet_envelope env r w h k =
    if_both (Quietly _) (env.kind == kind_update) (remote_update-Quietly env.payload r w h) (
      if_both (Quietly _) (env.kind == kind_awareness)
        (Quietly-Follows w (remote_awareness-Follows env.payload r))
        (rw k (Quietly-Follows w (Follows-same r))))

remote_envelope-Moves :
    (env : Envelope) (r : Room)
    → IsWellFormed r
    → IsBoundedBytes env.payload
    → Moves r.doc (remote_envelope env r)
unfolding remote_envelope
remote_envelope-Moves env r w h =
    if_both (Moves _) (env.kind == kind_update) (remote_update-Quietly env.payload r w h).moves (
      if_both (Moves _) (env.kind == kind_awareness)
        (Follows-Moves w (remote_awareness-Follows env.payload r))
        (if_both (Moves _) (env.kind == kind_state_vector)
          (answer_state_vector-Moves env.payload r w) (Moves-same w)))

-- Every envelope from the bus leaves a well-formed room well formed and takes no clock of the
-- document back, if the update that its payload may be is bounded.
pub receive-IsWellFormed :
    (env : Envelope) (r : Room)
    → IsWellFormed r
    → IsBoundedBytes env.payload
    → IsWellFormed (receive env r)
      × ((client : ℕ) → state r.doc.store client ≤ state (receive env r).doc.store client)
unfolding receive
receive-IsWellFormed env r w h =
    let m =
      if_both (Moves _) (env.origin == r.cfg.node_id) (Moves-same w)
        (remote_envelope-Moves env r w h) in
    (m.well, m.later)

-- An envelope that is not a state vector makes a well-formed room neither publish nor record an
-- update, so an update crosses the cluster once and is written by the replica it was made at.
pub receive-count_writes :
    (env : Envelope) (r : Room)
    → IsWellFormed r
    → IsBoundedBytes env.payload
    → (env.kind == kind_state_vector) ≡ false
    → count_writes (receive env r).effects ≡ count_writes r.effects
unfolding receive
receive-count_writes env r w h k =
    (if_both (Quietly _) (env.origin == r.cfg.node_id) (Quietly-Follows w (Follows-same r))
      (quiet_envelope env r w h k)).writes
