-- ===== src/Room/Handle/Commands.antt =====
-- Every command and every envelope keep a room well formed.
use crdt_server.Base.{
  if_both, ℕ, ◌-◌, ◌≤◌, List, [], ◌∷◌, true, false, not, ltb, ◌≡◌, refl, sym, ap, ◌∙◌, All,
  Bool-cases, Option-cases, Result-cases, inl, inr, none, some, Result, ok, err, no_versioning,
}
use crdt_server.Base.GoMap.{lookup, keys}
use crdt_server.Crdt.Doc.{Doc}
use crdt_server.Crdt.Doc.Queue.{apply_update}
use crdt_server.Crdt.Store.{state}
use crdt_server.Protocol.Messages.{
  Message, sync_step1, sync_step2, update, awareness, query_awareness, permission_denied, decode,
}
use crdt_server.Room.{Config, Room, closed, merge_reply, version_reply, evicted, exited, did}
use crdt_server.Room.Outbound.{close_protocol_error, close_going_away}
use crdt_server.Room.Outbound.Follows.{
  Follows, Follows-same, Follows-then, Follows-fields, did-Follows, drop-Follows, leave-Follows,
}
use crdt_server.Room.Events.{emit_hooks}
use crdt_server.Room.Persist.{request_compaction}
use crdt_server.Room.Client.{
  take_update, update_from, take_message, take_decoded, take_frame, touch_document,
}
use crdt_server.Room.Remote.{is_nil}
use crdt_server.Room.Handle.{
  Command, join, leave_room, frame, tick, evict, read, merge, version, join_room, close_each,
  finish_persisting, stop, evict_room, tick_over, tick_room, is_idle, read_room, merge_room,
  version_room, handle,
}
use crdt_server.Room.Handle.Follows.{
  tick_over-Follows, emit_hooks-Follows, queue_version-Follows, send_all-Follows,
  answer_step1-Follows, awareness_from-Follows, update_from-Follows, insert-is_nil,
}
use crdt_server.Room.Handle.Sound.{
  IsWellFormed, Moves, Moves-same, Moves-Follows, Moves-fields, IsBoundedBytes, with_doc-Moves,
  request_compaction-Moves, relay_update-Moves,
}

-- A step that leaves the document as it is.
pub Follows-Moves : {r s : Room} → IsWellFormed r → Follows r s → Moves r.doc s
Follows-Moves w f = Moves-Follows (Moves-same w) f

pub touched : (r : Room) → IsWellFormed r → IsWellFormed (touch_document r)
touched r w = record { doc = w.doc; aware = w.aware; timed = w.timed }

take_update-Moves :
    (conn : ℕ) (u : List ℕ) (r : Room)
    → IsWellFormed r
    → IsBoundedBytes u
    → Moves r.doc (take_update conn u (apply_update r.doc u) r)
unfolding take_update
take_update-Moves conn u r w h = elim (Result-cases (apply_update r.doc u)) [
  | inl (x, e) ↦ rw (e, take_update) (Follows-Moves w (drop-Follows conn close_protocol_error r))
  | inr (d, e) ↦
      rw (e, take_update) (relay_update-Moves r (some conn) u d (with_doc-Moves d u w h e))
]

update_from-Moves :
    (conn : ℕ) (u : List ℕ) (r : Room)
    → IsWellFormed r
    → IsBoundedBytes u
    → Moves r.doc (update_from conn u r)
unfolding update_from
update_from-Moves conn u r w h = elim (Bool-cases (r.cfg.can_write conn)) [
  | inl e ↦ rw (e, update_from) (take_update-Moves conn u (touch_document r) (touched r w) h)
  | inr e ↦ Follows-Moves w (update_from-Follows conn u r e)
]

-- The updates that a message carries.
unfoldable pub carried : Message → List (List ℕ)
carried (sync_step2 u) = u ∷ []
carried (update u) = u ∷ []
carried _ = []

take_message-Moves :
    (conn : ℕ) (m : Message) (r : Room)
    → IsWellFormed r
    → All IsBoundedBytes (carried m)
    → Moves r.doc (take_message conn m r)
unfolding take_message carried
take_message-Moves conn (sync_step1 sv) r w h = Follows-Moves w (answer_step1-Follows conn sv r)
take_message-Moves conn (sync_step2 u) r w (h, hs) = update_from-Moves conn u r w h
take_message-Moves conn (update u) r w (h, hs) = update_from-Moves conn u r w h
take_message-Moves conn (awareness payload) r w h =
    Follows-Moves w (awareness_from-Follows conn payload r)
take_message-Moves conn query_awareness r w h = Follows-Moves w (send_all-Follows conn r)
take_message-Moves conn (permission_denied reason) r w h = Moves-same w

-- The updates that a command brings, where its frame decodes.
unfoldable pub carried_by : Result Message → List (List ℕ)
carried_by (err _) = []
carried_by (ok m) = carried m

unfoldable pub brought : Command → List (List ℕ)
brought (frame conn b) = carried_by (decode b)
brought (merge u) = u ∷ []
brought _ = []

take_frame-Moves :
    (conn : ℕ) (b : List ℕ) (r : Room)
    → IsWellFormed r
    → All IsBoundedBytes (carried_by (decode b))
    → Moves r.doc (take_frame conn b r)
unfolding take_frame take_decoded carried_by
take_frame-Moves conn b r w h = elim (Option-cases (lookup conn r.conns)) [
  | inl e ↦ rw (e, take_frame) (Moves-same w)
  | inr (ids, e) ↦ elim (Result-cases (decode b)) [
    | inl (x, k) ↦
        rw (e, k, take_frame) (Follows-Moves w (drop-Follows conn close_protocol_error r))
    | inr (m, k) ↦
        let h' = rw (k, carried_by) at h in rw (e, k, take_frame) (take_message-Moves conn m r w h')
  ]
]

join_room-Moves : (conn : ℕ) (r : Room) → IsWellFormed r → Moves r.doc (join_room conn r)
unfolding join_room
join_room-Moves conn r w = elim (Option-cases (lookup conn r.conns)) [
  | inr (ids, e) ↦ rw (e, join_room) (Moves-same w)
  | inl e ↦
      rw (e, join_room)
        (record {
          well = record {
            doc = w.doc;
            aware = w.aware;
            timed = sym (insert-is_nil conn [] r.conns);
          };
          later = (Moves-same w).later;
        })
]

close_each-Follows : (conns : List ℕ) (code : ℕ) (r : Room) → Follows r (close_each conns code r)
unfolding close_each
close_each-Follows [] code r = Follows-same r
close_each-Follows (c ∷ cs) code r =
    Follows-then (did-Follows (closed c code) r refl) (close_each-Follows cs code _)

nil-lem : {V : Type 0} (m : List V) → is_nil m ≡ true → m ≡ []
nil-lem [] h = refl
nil-lem (x ∷ xs) h = cc

-- A room without connections may stop.
stop-Moves :
    (code : ℕ) {d : Doc} (r : Room) → is_nil r.conns ≡ true → Moves d r → Moves d (stop code r)
unfolding stop finish_persisting
stop-Moves code r h m =
    let first = emit_hooks-Follows r.now r in
    let s = emit_hooks r.now r in
    let closing = close_each-Follows (keys s.conns) code s in
    let shut = close_each (keys s.conns) code s in
    let (none_left, _) = (Follows-then first closing).alone (nil-lem r.conns h) in
    let gone = did exited (record shut { conns = [] }) in
    let left =
      Moves-fields {s = gone} (Moves-Follows m (Follows-then first closing)) refl refl
        (sym none_left) refl in
    let quiet = record gone { publishing = false } in
    let compacted = request_compaction-Moves {r = quiet} (Moves-fields left refl refl refl refl) in
    Moves-Follows
      (Moves-fields {s = record (request_compaction quiet) { persisting = false }} compacted refl
        refl refl refl)
      (emit_hooks-Follows r.now _)

evict_room-Moves : {d : Doc} (r : Room) → is_nil r.conns ≡ true → Moves d r → Moves d (evict_room r)
unfolding evict_room
evict_room-Moves r h m =
    stop-Moves close_going_away (did evicted r) h (Moves-fields m refl refl refl refl)

is_idle-is_nil : (now : ℕ) (r : Room) → is_idle now r ≡ true → is_nil r.conns ≡ true
unfolding is_idle
is_idle-is_nil now r h = elim (Option-cases r.last_empty) [
  | inl e ↦ let f = rw (e, is_idle) at h in cc f
  | inr (at, e) ↦ elim (Bool-cases (is_nil r.conns)) [
    | inl k ↦ k
    | inr k ↦ let f = rw (e, k, is_idle) at h in cc f
  ]
]

tick_room-Moves : (r : Room) → IsWellFormed r → Moves r.doc (tick_room r).1
unfolding tick_room
tick_room-Moves r w =
    let over = Follows-Moves w (tick_over-Follows r) in
    elim (Bool-cases (is_idle r.now (tick_over r))) [
      | inl e ↦
          rw (e, tick_room)
            (evict_room-Moves (tick_over r) (is_idle-is_nil r.now (tick_over r) e) over)
      | inr e ↦ rw (e, tick_room) over
    ]

merge_room-Moves :
    (u : List ℕ) (r : Room) → IsWellFormed r → IsBoundedBytes u → Moves r.doc (merge_room u r)
unfolding merge_room
merge_room-Moves u r w h = elim (Result-cases (apply_update r.doc u)) [
  | inl (x, e) ↦
      rw (e, merge_room)
        (Follows-Moves w (
          Follows-then (Follows-fields r (touch_document r) refl refl refl refl refl refl refl)
            (did-Follows (merge_reply (err x)) _ refl)))
  | inr (d, e) ↦
      rw (e, merge_room)
        (Moves-Follows
          (relay_update-Moves (touch_document r) none u d (with_doc-Moves d u (touched r w) h e))
          (did-Follows (merge_reply (ok tt)) _ refl))
]

version_room-Follows : (label : List ℕ) (r : Room) → Follows r (version_room label r)
unfolding version_room
version_room-Follows label r =
    if_both (Follows _) r.versioning
      (Follows-then
        (Follows-fields r (record r { version_dirty = false; last_version = some r.now }) refl refl
          refl refl refl refl refl)
        (Follows-then (queue_version-Follows label 0 _)
          (did-Follows (version_reply (ok tt)) _ refl)))
      (did-Follows (version_reply (err no_versioning)) r refl)

-- What handle needs of a command: the updates that it brings are bounded.
abbrev pub IsBoundedCommand : Command → Type 0
IsBoundedCommand c = All IsBoundedBytes (brought c)

handle-Moves :
    (c : Command) (r : Room) → IsWellFormed r → IsBoundedCommand c → Moves r.doc (handle c r).1
unfolding handle brought read_room
handle-Moves (join conn) r w h = join_room-Moves conn r w
handle-Moves (leave_room conn) r w h = Follows-Moves w (leave-Follows conn r)
handle-Moves (frame conn b) r w h = take_frame-Moves conn b r w h
handle-Moves tick r w h = tick_room-Moves r w
handle-Moves (read sv) r w h = Follows-Moves w (did-Follows _ r refl)
handle-Moves (merge u) r w (h, hs) = merge_room-Moves u r w h
handle-Moves (version label) r w h = Follows-Moves w (version_room-Follows label r)
handle-Moves evict r w h = elim (Bool-cases (is_nil r.conns)) [
  | inl e ↦ rw (e, handle) (evict_room-Moves r e (Moves-same w))
  | inr e ↦ rw (e, handle) (Moves-same w)
]

-- Every command leaves a well-formed room well formed: its document without a gap, its awareness
-- within the limits, and the time since which it is empty known exactly if it is. It takes no
-- clock of the document back. The updates that the command brings must be bounded.
pub handle-IsWellFormed :
    (c : Command) (r : Room)
    → IsWellFormed r
    → IsBoundedCommand c
    → IsWellFormed (handle c r).1
      × ((client : ℕ) → state r.doc.store client ≤ state (handle c r).1.doc.store client)
handle-IsWellFormed c r w h = let m = handle-Moves c r w h in (m.well, m.later)

is_idle-empty :
    (now : ℕ) (r : Room) (at : ℕ)
    → r.conns ≡ []
    → r.last_empty ≡ some at
    → is_idle now r ≡ not (ltb (now - at) r.cfg.idle_timeout)
unfolding is_idle
is_idle-empty now r at h k = rw (k, is_idle) (rw h refl)

-- A tick ends a room that nobody is connected to exactly if it has been empty for the idle timeout,
-- whatever else the tick does.
pub tick-is_idle :
    (r : Room) (at : ℕ)
    → r.conns ≡ []
    → r.last_empty ≡ some at
    → (handle tick r).0 ≡ not (ltb (r.now - at) r.cfg.idle_timeout)
unfolding handle tick_room is_idle
tick-is_idle r at h k =
    let f = tick_over-Follows r in
    let (e, l) = f.alone h in
    let idle : is_idle r.now (tick_over r) ≡ not (ltb (r.now - at) r.cfg.idle_timeout) =
      is_idle-empty r.now (tick_over r) at e (l ∙ k)
      ∙ ap (λ (c : Config). not (ltb (r.now - at) c.idle_timeout)) f.cfg in
    elim (Bool-cases (is_idle r.now (tick_over r))) [
      | inl x ↦ rw (x, tick_room) (sym x ∙ idle)
      | inr x ↦ rw (x, tick_room) (sym x ∙ idle)
    ]
