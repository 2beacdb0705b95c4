-- ===== src/Room/Client.antt =====
-- internal/room/room.go: what a room does with the frames of a connection.
use crdt_server.Base.{
  ℕ, List, [], ◌∷◌, Bool, true, false, ◌&&◌, ◌||◌, ltb, list_same, Option, none, some,
  if◌then◌else◌, Result, ok, err, Error, state_too_large, too_many_clients,
}
use crdt_server.Base.GoMap.{lookup, insert, member}
use crdt_server.Crdt.Doc.{Doc}
use crdt_server.Crdt.Doc.Queue.{apply_update}
use crdt_server.Crdt.Doc.Sync.{encode_state_vector, encode_diff}
use crdt_server.Protocol.Messages.{
  Message, sync_step1, sync_step2, update, awareness, query_awareness, permission_denied, decode,
  write_sync_step1, write_sync_step2, write_update, write_awareness, write_permission_denied,
}
use crdt_server.Protocol.Awareness.{Awareness, Applied, count_present, encode, encode_all}
use crdt_server.Protocol.Awareness
use crdt_server.Room.{Room}
use crdt_server.Room.Outbound.{
  close_protocol_error, close_policy_violation, kind_update, kind_awareness, publish, send, drop,
  broadcast, deliver,
}
use crdt_server.Room.Persist.{record_update}
use crdt_server.Room.Events.{changed}

-- "read-only: this token does not grant write access"
abbrev pub read_only : List ℕ
read_only =
    114 ∷ 101 ∷ 97 ∷ 100 ∷ 45 ∷ 111 ∷ 110 ∷ 108 ∷ 121 ∷ 58 ∷ 32 ∷ 116 ∷ 104 ∷ 105 ∷ 115 ∷ 32 ∷ 116
    ∷ 111 ∷ 107 ∷ 101 ∷ 110 ∷ 32 ∷ 100 ∷ 111 ∷ 101 ∷ 115 ∷ 32 ∷ 110 ∷ 111 ∷ 116 ∷ 32 ∷ 103 ∷ 114
    ∷ 97 ∷ 110 ∷ 116 ∷ 32 ∷ 119 ∷ 114 ∷ 105 ∷ 116 ∷ 101 ∷ 32 ∷ 97 ∷ 99 ∷ 99 ∷ 101 ∷ 115 ∷ 115 ∷ []

-- isEmptyUpdate
unfoldable pub is_empty_update : List ℕ → Bool
is_empty_update b = list_same b [] || list_same b (0 ∷ 0 ∷ [])

-- touchDocument
abbrev pub touch_document : Room → Room
touch_document r = record r { usage_dirty = true }

abbrev pub with_doc : Doc → Room → Room
with_doc d r = record r { doc = d }

-- Room.sendAll
unfoldable pub send_all : ℕ → Room → Room
send_all conn r = elim (encode_all r.awareness) [
  | err _ ↦ r
  | ok payload ↦ (deliver conn (write_awareness payload) r).1
]

-- The end of syncStep1: the server's state vector and the cursors.
unfoldable pub ask_back : ℕ → Room → Room
ask_back conn r = elim (encode_state_vector r.doc) [
  | err _ ↦ r
  | ok ours ↦
      let p = deliver conn (write_sync_step1 ours) r in
      if p.0 && ltb 0 p.1.awareness.present then send_all conn p.1 else p.1
]

-- Room.syncStep1
unfoldable pub answer_step1 : ℕ → List ℕ → Room → Room
answer_step1 conn sv r = elim (encode_diff r.doc sv) [
  | err _ ↦ drop conn close_protocol_error r
  | ok diff ↦
      let p = deliver conn (write_sync_step2 diff) r in if p.0 then ask_back conn p.1 else p.1
]

-- The end of update, with the document after the update.
unfoldable pub relay_update : Option ℕ → List ℕ → Doc → Room → Room
relay_update except u d r =
    let noted = changed (record (record_update u (with_doc d r)) { version_dirty = true }) in
    publish kind_update u (broadcast (write_update u) except noted)

unfoldable pub refuse_update : ℕ → List ℕ → Room → Room
refuse_update conn u r =
    if is_empty_update u
    then r
    else drop conn close_policy_violation (send conn (write_permission_denied read_only) r)

unfoldable pub take_update : ℕ → List ℕ → Result Doc → Room → Room
take_update conn u (err _) r = drop conn close_protocol_error r
take_update conn u (ok d) r = relay_update (some conn) u d r

-- Room.update
unfoldable pub update_from : ℕ → List ℕ → Room → Room
update_from conn u r =
    if r.cfg.can_write conn
    then take_update conn u (apply_update r.doc u) (touch_document r)
    else refuse_update conn u r

-- The set of clients of a connection, and those that changed.
unfoldable pub add_clients : List ℕ → List ℕ → List ℕ
add_clients [] ids = ids
add_clients (c ∷ cs) ids = add_clients cs (if member c ids then ids else c ∷ ids)

unfoldable pub note_clients : ℕ → List ℕ → Room → Room
note_clients conn cs r = elim (lookup conn r.conns) [
  | none ↦ r
  | some ids ↦ record r { conns = insert conn (add_clients cs ids) r.conns }
]

-- `errors.Is(err, protocol.ErrStateTooLarge) || errors.Is(err, protocol.ErrTooManyClients)`
abbrev pub is_over_limit : Error → Bool
is_over_limit state_too_large = true
is_over_limit too_many_clients = true
is_over_limit _ = false

unfoldable pub refuse_awareness : ℕ → Error → Room → Room
refuse_awareness conn e r =
    if is_over_limit e
    then drop conn close_policy_violation
        (send conn (write_permission_denied (r.cfg.error_text e)) r)
    else drop conn close_protocol_error r

-- The broadcast and the envelope with the entries that changed.
unfoldable pub relay_awareness : ℕ → List ℕ → Room → Room
relay_awareness conn cs r = elim (encode r.awareness cs) [
  | err _ ↦ r
  | ok out ↦ publish kind_awareness out (broadcast (write_awareness out) (some conn) r)
]

unfoldable pub take_awareness : ℕ → Option Error → List ℕ → Room → Room
take_awareness conn (some e) cs r = refuse_awareness conn e r
take_awareness conn none [] r = r
take_awareness conn none (c ∷ cs) r = relay_awareness conn (c ∷ cs) (note_clients conn (c ∷ cs) r)

-- Room.awareness
unfoldable pub awareness_from : ℕ → List ℕ → Room → Room
awareness_from conn payload r =
    let a = Awareness.apply_update r.awareness payload r.now in
    take_awareness conn a.failure a.changed (record r { awareness = a.awareness })

-- The switch on the message.
unfoldable pub take_message : ℕ → Message → Room → Room
take_message conn (sync_step1 sv) r = answer_step1 conn sv r
take_message conn (sync_step2 u) r = update_from conn u r
take_message conn (update u) r = update_from conn u r
take_message conn (awareness payload) r = awareness_from conn payload r
take_message conn query_awareness r = send_all conn r
take_message conn (permission_denied reason) r = r

unfoldable pub take_decoded : ℕ → Result Message → Room → Room
take_decoded conn (err _) r = drop conn close_protocol_error r
take_decoded conn (ok m) r = take_message conn m r

-- Room.frame
unfoldable pub take_frame : ℕ → List ℕ → Room → Room
take_frame conn frame r = elim (lookup conn r.conns) [
  | none ↦ r
  | some _ ↦ take_decoded conn (decode frame) r
]
