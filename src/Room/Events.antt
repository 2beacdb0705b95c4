-- ===== src/Room/Events.antt =====
-- internal/room/hooks.go and internal/hook/hook.go: the events that tell of changes, at most one of a kind for a tick.
use crdt_server.Base.{
  ◌∷◌, list_same, ℕ, suc, ◌+◌, List, [], ltb, length, Option, none, some, if◌then◌else◌, Result, ok,
  err,
}
use crdt_server.Crdt.Doc.Sync.{encode_state_as_update, encode_state_vector}
use crdt_server.Room.{Room, EventKind, change, store, Event, emitted, did}

-- Room.changed
unfoldable pub changed : Room → Room
changed r = if r.cfg.has_hooks then record r { changes = suc r.changes } else r

-- Room.stored
unfoldable pub stored : ℕ → Room → Room
stored rows r = if r.cfg.has_hooks then record r { stored_rows = r.stored_rows + rows } else r

abbrev pub unless_error : Result (List ℕ) → Option (List ℕ)
unless_error (ok b) = some b
unless_error (err _) = none

-- Room.event
unfoldable pub event : EventKind → ℕ → ℕ → Room → Event
event kind now updates r = record {
  doc = r.cfg.name;
  kind = kind;
  at = now;
  node = r.cfg.node_id;
  clients = length r.conns;
  updates = updates;
  state_vector = unless_error (encode_state_vector r.doc);
  state = if r.cfg.hook_state then unless_error (encode_state_as_update r.doc []) else none;
}

unfoldable pub emit_changes : ℕ → Room → Room
emit_changes now r =
    if ltb 0 r.changes
    then did (emitted (event change now r.changes r)) (record r { changes = 0 })
    else r

unfoldable pub emit_rows : ℕ → Room → Room
emit_rows now r =
    if ltb 0 r.stored_rows
    then did (emitted (event store now r.stored_rows r)) (record r { stored_rows = 0 })
    else r

-- Room.emitHooks
unfoldable pub emit_hooks : ℕ → Room → Room
emit_hooks now r = if r.cfg.has_hooks then emit_rows now (emit_changes now r) else r

-- The values of hook.Kind: "document.change" and "document.store"
abbrev pub kind_name : EventKind → List ℕ
kind_name change =
    100 ∷ 111 ∷ 99 ∷ 117 ∷ 109 ∷ 101 ∷ 110 ∷ 116 ∷ 46 ∷ 99 ∷ 104 ∷ 97 ∷ 110 ∷ 103 ∷ 101 ∷ []
kind_name store =
    100 ∷ 111 ∷ 99 ∷ 117 ∷ 109 ∷ 101 ∷ 110 ∷ 116 ∷ 46 ∷ 115 ∷ 116 ∷ 111 ∷ 114 ∷ 101 ∷ []

-- ParseKind of internal/hook/hook.go
unfoldable pub parse_kind : List ℕ → Option EventKind
parse_kind s =
    if list_same (kind_name change) s
    then some change
    else (if list_same (kind_name store) s then some store else none)
