-- ===== src/Room/Persist.antt =====
-- internal/room/persist.go and versions.go: loading a document, and the jobs for the writer.
use crdt_server.Base.{
  ℕ, suc, ◌-◌, List, [], ◌∷◌, Bool, true, false, not, ◌&&◌, ◌||◌, ltb, leb, length, Option, none,
  some, if◌then◌else◌, Result, ok, err, and_then,
}
use crdt_server.Crdt.Doc.{Doc}
use crdt_server.Crdt.Doc.Queue.{apply_update}
use crdt_server.Crdt.Doc.Sync.{encode_state_as_update, encode_state_vector}
use crdt_server.Room.{Room, recorded, compacted, versioned, did}

-- store.Document: the latest snapshot and the updates after it.
pub record Stored : Type 0 where
  pub snapshot : Option (List ℕ)
  pub updates : List (List ℕ)
  -- The numbers of those rows.
  pub seqs : List ℕ

-- The loop over the stored updates, which passes over those that do not apply.
unfoldable pub apply_stored : List (List ℕ) → Doc → Doc
apply_stored [] d = d
apply_stored (u ∷ us) d = apply_stored us (elim (apply_update d u) [ err _ ↦ d | ok e ↦ e ])

unfoldable pub apply_snapshot : Option (List ℕ) → Doc → Result Doc
apply_snapshot none d = ok d
apply_snapshot (some b) d = apply_update d b

-- Nothing has changed since the room was measured, or it has a figure from just before.
unfoldable pub is_measured : ℕ → Room → Bool
is_measured now r = elim r.measured [
  | none ↦ false
  | some at ↦ not r.usage_dirty || (ltb 0 r.bytes && ltb (now - at) r.cfg.usage_interval)
]

-- Room.measure
unfoldable pub measure : ℕ → Room → Room
measure now r =
    let usage = r.cfg.usage_of r.doc in
    if is_measured now r
    then r
    else record r { bytes = usage.0; structs = usage.1; measured = some now; usage_dirty = false }

-- Room.load, for what Store.Load found.
unfoldable pub load : Stored → Room → Result Room
load found r = and_then (apply_snapshot found.snapshot r.doc) (λ d. ok (
    measure r.now (record r {
      doc = apply_stored found.updates d;
      since_snapshot = length found.updates;
      usage_dirty = true;
      measured = none;
    })))

unfoldable pub compact : Room → Room
compact r = elim (encode_state_as_update r.doc []) [
  | err _ ↦ r
  | ok snapshot ↦ did (compacted snapshot) (record r { since_snapshot = 0 })
]

-- Room.requestCompaction
unfoldable pub request_compaction : Room → Room
request_compaction r = if r.persisting then compact r else r

-- Room.record
unfoldable pub record_update : List ℕ → Room → Room
record_update update r =
    if r.persisting
    then (let s = did (recorded update) (record r { since_snapshot = suc r.since_snapshot }) in
        if leb r.cfg.compact_after (suc r.since_snapshot) then request_compaction s else s)
    else r

-- Room.queueVersion, for a label and the interval that the store enforces.
unfoldable pub queue_version : List ℕ → ℕ → Room → Room
queue_version label min_age r = elim (encode_state_as_update r.doc []) [
  | err _ ↦ r
  | ok payload ↦ elim (encode_state_vector r.doc) [
    | err _ ↦ r
    | ok sv ↦ if r.persisting then did (versioned payload sv label min_age) r else r
  ]
]

-- `!t.IsZero() && now.Sub(t) < interval`
unfoldable pub is_recent : Option ℕ → ℕ → ℕ → Bool
is_recent none now interval = false
is_recent (some at) now interval = ltb (now - at) interval

-- Room.versionTick
unfoldable pub version_tick : ℕ → Room → Room
version_tick now r =
    if r.versioning
      && ltb 0 r.cfg.version_interval
      && r.version_dirty
      && not (is_recent r.last_version now r.cfg.version_interval)
    then queue_version [] r.cfg.version_interval
        (record r { last_version = some now; version_dirty = false })
    else r
