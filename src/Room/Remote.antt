-- ===== src/Room/Remote.antt =====
-- internal/room/fanout.go: what a room does with the envelopes of other replicas.
use crdt_server.Base.{
  ℕ, List, [], ◌∷◌, Bool, true, false, ◌==◌, not, ◌||◌, Option, none, some, if◌then◌else◌, Result,
  ok, err, Error,
}
use crdt_server.Crdt.Doc.{Doc}
use crdt_server.Crdt.Doc.Queue.{apply_update}
use crdt_server.Crdt.Doc.Sync.{encode_state_vector, encode_diff}
use crdt_server.Protocol.Messages.{write_update, write_awareness}
use crdt_server.Protocol.Awareness.{encode}
use crdt_server.Protocol.Awareness
use crdt_server.Cluster.Envelope.{Envelope}
use crdt_server.Room.{Room}
use crdt_server.Room.Outbound.{kind_update, kind_awareness, kind_state_vector, publish, broadcast}
use crdt_server.Room.Persist.{is_recent}
use crdt_server.Room.Client.{is_empty_update, touch_document, with_doc}

unfoldable pub take_remote_update : List ℕ → Result Doc → Room → Room
take_remote_update u (err _) r = r
take_remote_update u (ok d) r =
    broadcast (write_update u) none (record (with_doc d r) { version_dirty = true })

-- Room.remoteUpdate
unfoldable pub remote_update : List ℕ → Room → Room
remote_update u r = take_remote_update u (apply_update r.doc u) (touch_document r)

unfoldable pub tell_awareness : List ℕ → Room → Room
tell_awareness cs r = elim (encode r.awareness cs) [
  | err _ ↦ r
  | ok out ↦ broadcast (write_awareness out) none r
]

unfoldable pub take_remote_awareness : Option Error → List ℕ → Room → Room
take_remote_awareness (some e) cs r = r
take_remote_awareness none [] r = r
take_remote_awareness none (c ∷ cs) r = tell_awareness (c ∷ cs) r

-- Room.remoteAwareness
unfoldable pub remote_awareness : List ℕ → Room → Room
remote_awareness payload r =
    let a = Awareness.apply_update r.awareness payload r.now in
    take_remote_awareness a.failure a.changed (record r { awareness = a.awareness })

-- Room.answerStateVector
unfoldable pub answer_state_vector : List ℕ → Room → Room
answer_state_vector sv r = elim (encode_diff r.doc sv) [
  | err _ ↦ r
  | ok diff ↦ if is_empty_update diff then r else publish kind_update diff r
]

-- Room.remoteEnvelope
unfoldable pub remote_envelope : Envelope → Room → Room
remote_envelope env r =
    if env.kind == kind_update
    then remote_update env.payload r
    else (if env.kind == kind_awareness
        then remote_awareness env.payload r
        else (if env.kind == kind_state_vector then answer_state_vector env.payload r else r))

-- The callback of joinBus: what reaches the room of an envelope from the bus, whose queue is taken
-- to have space.
unfoldable pub receive : Envelope → Room → Room
receive env r = if env.origin == r.cfg.node_id then r else remote_envelope env r

unfoldable pub announce_now : ℕ → Room → Room
announce_now now r = elim (encode_state_vector r.doc) [
  | err _ ↦ r
  | ok sv ↦ publish kind_state_vector sv (record r { last_announce = some now })
]

abbrev pub is_nil {ℓ} : {A : Type ℓ} → List A → Bool
is_nil [] = true
is_nil (x ∷ xs) = false

-- Room.announce
unfoldable pub announce : ℕ → Room → Room
announce now r =
    if not r.publishing || is_nil r.conns || is_recent r.last_announce now r.cfg.anti_entropy
    then r
    else announce_now now r
