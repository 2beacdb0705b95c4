-- ===== src/Room/Handle/Follows.antt =====
-- The steps of a room that leave its document as it is and write nothing.
use crdt_server.Base.{
  if_both, ℕ, List, [], ◌∷◌, true, false, not, ◌&&◌, ◌||◌, ◌==◌, ltb, ◌≡◌, refl, sym, ◌∙◌,
  Bool-cases, Option-cases, Result-cases, inl, inr, Option, none, some, Result, ok, err, Error,
}
use crdt_server.Base.GoMap.{GoMap, lookup, insert}
use crdt_server.Crdt.Doc.Sync.{encode_state_as_update, encode_state_vector, encode_diff}
use crdt_server.Protocol.Awareness
use crdt_server.Protocol.Awareness.{encode, encode_all}
use crdt_server.Protocol.Awareness.Bounds.{apply_update-IsWellFormed}
use crdt_server.Protocol.Awareness.Bounds.Removed.{remove-IsWellFormed}
use crdt_server.Protocol.Awareness.Removal.{sweep}
use crdt_server.Protocol.Messages.{
  Message, sync_step1, sync_step2, update, awareness, query_awareness, permission_denied, decode,
  write_sync_step1, write_sync_step2, write_awareness, write_permission_denied,
}
use crdt_server.Room.{Room, change, store, emitted, versioned}
use crdt_server.Room.Outbound.{
  close_policy_violation, close_protocol_error, kind_awareness, kind_state_vector, deliver,
}
use crdt_server.Room.Outbound.Follows.{
  Follows, Follows-same, Follows-then, Follows-fields, did-Follows, publish-Follows, send-Follows,
  with_awareness-Follows, drop-Follows, broadcast-Follows, deliver-Follows, lookup-is_nil,
  true-false, count_writes,
}
use crdt_server.Room.Persist.{is_measured, measure, queue_version, version_tick, is_recent}
use crdt_server.Room.Events.{emit_changes, emit_rows, emit_hooks, event}
use crdt_server.Room.Client.{
  is_empty_update, read_only, send_all, ask_back, answer_step1, refuse_update, note_clients,
  add_clients, is_over_limit, refuse_awareness, relay_awareness, take_awareness, awareness_from,
  update_from, take_message, take_decoded, take_frame,
}
use crdt_server.Room.Remote.{is_nil, announce, announce_now}
use crdt_server.Room.Handle.{tell_swept, tick_over}

pub measure-Follows : (now : ℕ) (r : Room) → Follows r (measure now r)
unfolding measure
measure-Follows now r =
    if_both (Follows _) (is_measured now r) (Follows-same r)
      (Follows-fields r _ refl refl refl refl refl refl refl)

pub queue_version-Follows :
    (label : List ℕ) (age : ℕ) (r : Room) → Follows r (queue_version label age r)
unfolding queue_version
queue_version-Follows label age r = elim (Result-cases (encode_state_as_update r.doc [])) [
  | inl (x, e) ↦ rw (e, queue_version) (Follows-same r)
  | inr (payload, e) ↦ elim (Result-cases (encode_state_vector r.doc)) [
    | inl (x, k) ↦ rw (e, k, queue_version) (Follows-same r)
    | inr (sv, k) ↦
        rw (e, k, queue_version)
          (if_both (Follows _) r.persisting (did-Follows (versioned payload sv label age) r refl)
            (Follows-same r))
  ]
]

version_tick-Follows : (now : ℕ) (r : Room) → Follows r (version_tick now r)
unfolding version_tick
version_tick-Follows now r =
    if_both (Follows _)
      (r.versioning
        && ltb 0 r.cfg.version_interval
        && r.version_dirty
        && not (is_recent r.last_version now r.cfg.version_interval))
      (Follows-then (Follows-fields r _ refl refl refl refl refl refl refl) (
        queue_version-Follows [] r.cfg.version_interval
          (record r { last_version = some now; version_dirty = false })))
      (Follows-same r)

pub emit_hooks-Follows : (now : ℕ) (r : Room) → Follows r (emit_hooks now r)
unfolding emit_hooks emit_changes emit_rows
emit_hooks-Follows now r =
    let first : Follows r (emit_changes now r) =
      if_both (Follows _) (ltb 0 r.changes)
        (Follows-then
          (Follows-fields r (record r { changes = 0 }) refl refl refl refl refl refl refl)
          (did-Follows (emitted (event change now r.changes r)) _ refl))
        (Follows-same r) in
    let s = emit_changes now r in
    let second : Follows s (emit_rows now s) =
      if_both (Follows _) (ltb 0 s.stored_rows)
        (Follows-then
          (Follows-fields s (record s { stored_rows = 0 }) refl refl refl refl refl refl refl)
          (did-Follows (emitted (event store now s.stored_rows s)) _ refl))
        (Follows-same s) in
    if_both (Follows _) r.cfg.has_hooks (Follows-then first second) (Follows-same r)

announce-Follows : (now : ℕ) (r : Room) → Follows r (announce now r)
unfolding announce announce_now
announce-Follows now r =
    let sent : Follows r (announce_now now r) = elim (Result-cases (encode_state_vector r.doc)) [
      | inl (x, e) ↦ rw (e, announce_now) (Follows-same r)
      | inr (sv, e) ↦
          rw (e, announce_now)
            (Follows-then
              (Follows-fields r (record r { last_announce = some now }) refl refl refl refl refl
                refl refl)
              (publish-Follows kind_state_vector sv _ refl))
    ] in
    if_both (Follows _)
      (not r.publishing || is_nil r.conns || is_recent r.last_announce now r.cfg.anti_entropy)
      (Follows-same r) sent

tell_swept-Follows : (p : Result (List ℕ × List ℕ)) (r : Room) → Follows r (tell_swept p r)
unfolding tell_swept
tell_swept-Follows (err e) r = Follows-same r
tell_swept-Follows (ok (ids, [])) r = Follows-same r
tell_swept-Follows (ok (ids, b ∷ payload)) r = broadcast-Follows _ none r

-- All that a tick does besides ending an idle room.
pub tick_over-Follows : (r : Room) → Follows r (tick_over r)
unfolding tick_over
tick_over-Follows r =
    let s = measure r.now r in
    let p = sweep s.awareness r.now r.cfg.awareness_ttl in
    Follows-then (measure-Follows r.now r) (
      Follows-then
        (with_awareness-Follows p.0 s
          (λ w. (remove-IsWellFormed s.awareness [] r.now r.cfg.awareness_ttl w).1))
        (Follows-then (tell_swept-Follows p.1 _) (
          Follows-then (announce-Follows r.now _)
            (Follows-then (emit_hooks-Follows r.now _) (version_tick-Follows r.now _)))))

pub send_all-Follows : (conn : ℕ) (r : Room) → Follows r (send_all conn r)
unfolding send_all
send_all-Follows conn r = elim (Result-cases (encode_all r.awareness)) [
  | inl (x, e) ↦ rw (e, send_all) (Follows-same r)
  | inr (payload, e) ↦ rw (e, send_all) (deliver-Follows conn _ r)
]

ask_back-Follows : (conn : ℕ) (r : Room) → Follows r (ask_back conn r)
unfolding ask_back
ask_back-Follows conn r = elim (Result-cases (encode_state_vector r.doc)) [
  | inl (x, e) ↦ rw (e, ask_back) (Follows-same r)
  | inr (ours, e) ↦
      let p = deliver conn (write_sync_step1 ours) r in
      let went = deliver-Follows conn (write_sync_step1 ours) r in
      rw (e, ask_back)
        (if_both (Follows _) (p.0 && ltb 0 p.1.awareness.present)
          (Follows-then went (send_all-Follows conn p.1)) went)
]

pub answer_step1-Follows : (conn : ℕ) (sv : List ℕ) (r : Room) → Follows r (answer_step1 conn sv r)
unfolding answer_step1
answer_step1-Follows conn sv r = elim (Result-cases (encode_diff r.doc sv)) [
  | inl (x, e) ↦ rw (e, answer_step1) (drop-Follows conn close_protocol_error r)
  | inr (diff, e) ↦
      let p = deliver conn (write_sync_step2 diff) r in
      let went = deliver-Follows conn (write_sync_step2 diff) r in
      rw (e, answer_step1)
        (if_both (Follows _) p.0 (Follows-then went (ask_back-Follows conn p.1)) went)
]

refuse_update-Follows : (conn : ℕ) (u : List ℕ) (r : Room) → Follows r (refuse_update conn u r)
unfolding refuse_update
refuse_update-Follows conn u r = if_both (Follows _) (is_empty_update u) (Follows-same r) (
    Follows-then (send-Follows conn (write_permission_denied read_only) r)
      (drop-Follows conn close_policy_violation _))

pub insert-is_nil :
    (conn : ℕ) (ids : List ℕ) (m : GoMap (List ℕ)) → is_nil (insert conn ids m) ≡ false
unfolding insert
insert-is_nil conn ids [] = refl
insert-is_nil conn ids ((k, old) ∷ m) = elim (Bool-cases (k == conn)) [
  | inl e ↦ rw e refl
  | inr e ↦ rw e refl
]

note_clients-Follows : (conn : ℕ) (cs : List ℕ) (r : Room) → Follows r (note_clients conn cs r)
unfolding note_clients
note_clients-Follows conn cs r = elim (Option-cases (lookup conn r.conns)) [
  | inl e ↦ rw (e, note_clients) (Follows-same r)
  | inr (ids, e) ↦
      let some_conn = lookup-is_nil conn r.conns ids e in
      rw (e, note_clients)
        (record {
          doc = refl;
          cfg = refl;
          now = refl;
          writes = refl;
          aware = λ h. h;
          timed = λ h. h ∙ some_conn ∙ sym (insert-is_nil conn (add_clients cs ids) r.conns);
          alone = λ h.
              let f : is_nil r.conns ≡ true = rw h refl in absurd (true-false (sym f ∙ some_conn));
        })
]

refuse_awareness-Follows : (conn : ℕ) (e : Error) (r : Room) → Follows r (refuse_awareness conn e r)
unfolding refuse_awareness
refuse_awareness-Follows conn e r =
    if_both (Follows _) (is_over_limit e)
      (Follows-then (send-Follows conn (write_permission_denied (r.cfg.error_text e)) r)
        (drop-Follows conn close_policy_violation _))
      (drop-Follows conn close_protocol_error r)

relay_awareness-Follows :
    (conn : ℕ) (cs : List ℕ) (r : Room) → Follows r (relay_awareness conn cs r)
unfolding relay_awareness
relay_awareness-Follows conn cs r = elim (Result-cases (encode r.awareness cs)) [
  | inl (x, e) ↦ rw (e, relay_awareness) (Follows-same r)
  | inr (out, e) ↦
      rw (e, relay_awareness)
        (Follows-then (broadcast-Follows (write_awareness out) (some conn) r)
          (publish-Follows kind_awareness out _ refl))
]

take_awareness-Follows :
    (conn : ℕ) (failure : Option Error) (cs : List ℕ) (r : Room)
    → Follows r (take_awareness conn failure cs r)
unfolding take_awareness
take_awareness-Follows conn (some e) cs r = refuse_awareness-Follows conn e r
take_awareness-Follows conn none [] r = Follows-same r
take_awareness-Follows conn none (c ∷ cs) r =
    Follows-then (note_clients-Follows conn (c ∷ cs) r) (relay_awareness-Follows conn (c ∷ cs) _)

pub awareness_from-Follows :
    (conn : ℕ) (payload : List ℕ) (r : Room) → Follows r (awareness_from conn payload r)
unfolding awareness_from
awareness_from-Follows conn payload r =
    let a = Awareness.apply_update r.awareness payload r.now in
    Follows-then
      (with_awareness-Follows a.awareness r (apply_update-IsWellFormed r.awareness payload r.now))
      (take_awareness-Follows conn a.failure a.changed _)

pub update_from-Follows :
    (conn : ℕ) (u : List ℕ) (r : Room)
    → r.cfg.can_write conn ≡ false
    → Follows r (update_from conn u r)
unfolding update_from
update_from-Follows conn u r h = rw (h, update_from) (refuse_update-Follows conn u r)

take_message-Follows :
    (conn : ℕ) (m : Message) (r : Room)
    → r.cfg.can_write conn ≡ false
    → Follows r (take_message conn m r)
unfolding take_message
take_message-Follows conn (sync_step1 sv) r h = answer_step1-Follows conn sv r
take_message-Follows conn (sync_step2 u) r h = update_from-Follows conn u r h
take_message-Follows conn (update u) r h = update_from-Follows conn u r h
take_message-Follows conn (awareness payload) r h = awareness_from-Follows conn payload r
take_message-Follows conn query_awareness r h = send_all-Follows conn r
take_message-Follows conn (permission_denied reason) r h = Follows-same r

pub take_frame-Follows :
    (conn : ℕ) (b : List ℕ) (r : Room)
    → r.cfg.can_write conn ≡ false
    → Follows r (take_frame conn b r)
unfolding take_frame take_decoded
take_frame-Follows conn b r h = elim (Option-cases (lookup conn r.conns)) [
  | inl e ↦ rw (e, take_frame) (Follows-same r)
  | inr (ids, e) ↦ elim (Result-cases (decode b)) [
    | inl (x, k) ↦ rw (e, k, take_frame) (drop-Follows conn close_protocol_error r)
    | inr (m, k) ↦ rw (e, k, take_frame) (take_message-Follows conn m r h)
  ]
]

-- Whatever a connection that may not write sends, the document stays as it is, and no update goes to
-- the writer or to the other replicas.
pub take_frame-read_only :
    (conn : ℕ) (b : List ℕ) (r : Room)
    → r.cfg.can_write conn ≡ false
    → ((take_frame conn b r).doc ≡ r.doc)
      × (count_writes (take_frame conn b r).effects ≡ count_writes r.effects)
take_frame-read_only conn b r h = let f = take_frame-Follows conn b r h in (f.doc, f.writes)
