-- ===== src/Room/Handle/Sound.antt =====
-- Every command and every envelope keep a room well formed.
use native.Mathlib.Nat.{le_refl}
use crdt_server.Base.{
  if_both, ℕ, suc, ◌≤◌, List, [], true, leb, ◌≡◌, refl, Result-cases, and_then-eq-ok, inl, inr,
  Option, ok,
}
use crdt_server.Crdt.Doc.{Doc}
use crdt_server.Crdt.Doc.Queue.{apply_update, apply_decoded_update}
use crdt_server.Crdt.Doc.Sound
use crdt_server.Crdt.Doc.Sound.{IsBoundedUpdate, Improves, Improves-then}
use crdt_server.Crdt.Doc.Applied.{apply_decoded_update-IsWellFormed}
use crdt_server.Crdt.Doc.Sync.{encode_state_as_update}
use crdt_server.Crdt.Store.{state}
use crdt_server.Crdt.Update.{Update, decode_update}
use crdt_server.Protocol.Awareness.Bounds
use crdt_server.Protocol.Awareness.Bounds.{apply_update-IsWellFormed}
use crdt_server.Protocol.Messages.{write_update}
use crdt_server.Room.{Room, recorded, did}
use crdt_server.Room.Outbound.{kind_update, publish}
use crdt_server.Room.Outbound.Follows.{Follows, broadcast-Follows, IsTimed}
use crdt_server.Room.Persist.{record_update, compact, request_compaction}
use crdt_server.Room.Events.{changed}
use crdt_server.Room.Client.{relay_update, with_doc}

-- The invariant of a room: its document and its awareness are well formed, and it knows since when
-- it is empty exactly if it is.
pub record IsWellFormed (r : Room) : Type 0 where
  pub doc : Sound.IsWellFormed r.doc
  pub aware : Bounds.IsWellFormed r.awareness
  pub timed : IsTimed r

-- A well-formed room, none of whose document's clocks is behind those of `d`.
pub record Moves (d : Doc) (r : Room) : Type 0 where
  pub well : IsWellFormed r
  pub later : (client : ℕ) → state d.store client ≤ state r.doc.store client

pub Moves-same : {r : Room} → IsWellFormed r → Moves r.doc r
Moves-same {r} w = record { well = w; later = λ c. le_refl (state r.doc.store c) }

pub Moves-Follows : {d : Doc} {r s : Room} → Moves d r → Follows r s → Moves d s
Moves-Follows {d} {r} {s} m f = record {
  well = record {
    doc = rw f.doc m.well.doc;
    aware = f.aware m.well.aware;
    timed = f.timed m.well.timed;
  };
  later = λ c. rw f.doc (m.later c);
}

-- The same for steps that write.
pub Moves-fields :
    {d : Doc} {r s : Room}
    → Moves d r
    → s.doc ≡ r.doc
    → s.awareness ≡ r.awareness
    → s.conns ≡ r.conns
    → s.last_empty ≡ r.last_empty
    → Moves d s
Moves-fields {d} {r} {s} m e a o l = record {
  well = record {
    doc = rw e m.well.doc;
    aware = rw a m.well.aware;
    timed = rw (o, l) m.well.timed;
  };
  later = λ c. rw e (m.later c);
}

pub publish-Moves : {d : Doc} {r : Room} (k : ℕ) (p : List ℕ) → Moves d r → Moves d (publish k p r)
unfolding publish
publish-Moves {r} k p m = if_both (Moves _) r.publishing (Moves-fields m refl refl refl refl) m

-- What a room is given to apply, if it decodes, has no struct beyond what an int64 holds.
abbrev pub IsBoundedBytes : List ℕ → Type 0
IsBoundedBytes b = (u : Update) → decode_update b ≡ ok u → IsBoundedUpdate u

apply_update-Improves :
    (d e : Doc) (b : List ℕ)
    → Sound.IsWellFormed d
    → IsBoundedBytes b
    → apply_update d b ≡ ok e
    → Improves d e
unfolding apply_update
apply_update-Improves d e b w h k =
    let (u, f, made) = and_then-eq-ok (decode_update b) _ k in
    let (well, later) = apply_decoded_update-IsWellFormed d u w (h u f) in
    let same : apply_decoded_update d u ≡ e = cc in
    rw (← same) (record { well = well; later = later })

pub with_doc-Moves :
    {r : Room} (e : Doc) (b : List ℕ)
    → IsWellFormed r
    → IsBoundedBytes b
    → apply_update r.doc b ≡ ok e
    → Moves r.doc (with_doc e r)
with_doc-Moves {r} e b w h k =
    let i = apply_update-Improves r.doc e b w.doc h k in
    record { well = record { doc = i.well; aware = w.aware; timed = w.timed }; later = i.later }

pub request_compaction-Moves : {d : Doc} {r : Room} → Moves d r → Moves d (request_compaction r)
unfolding request_compaction compact
request_compaction-Moves {d} {r} m =
    let taken : Moves d (compact r) = elim (Result-cases (encode_state_as_update r.doc [])) [
      | inl (x, e) ↦ rw (e, compact) m
      | inr (s, e) ↦ rw (e, compact) (Moves-fields m refl refl refl refl)
    ] in
    if_both (Moves _) r.persisting taken m

record_update-Moves : {d : Doc} {r : Room} (u : List ℕ) → Moves d r → Moves d (record_update u r)
unfolding record_update
record_update-Moves {r} u m =
    let noted = did (recorded u) (record r { since_snapshot = suc r.since_snapshot }) in
    let m' = Moves-fields {s = noted} m refl refl refl refl in
    if_both (Moves _) r.persisting
      (if_both (Moves _) (leb r.cfg.compact_after (suc r.since_snapshot))
        (request_compaction-Moves m') m')
      m

pub relay_update-Moves :
    {d : Doc} (r : Room) (except : Option ℕ) (u : List ℕ) (e : Doc)
    → Moves d (with_doc e r)
    → Moves d (relay_update except u e r)
unfolding relay_update changed
relay_update-Moves r except u e m =
    let s = record_update u (with_doc e r) in
    let dirty = record s { version_dirty = true } in
    let first = Moves-fields {s = dirty} (record_update-Moves u m) refl refl refl refl in
    let noted =
      if_both (Moves _) dirty.cfg.has_hooks {second = dirty}
        (Moves-fields first refl refl refl refl) first in
    publish-Moves kind_update u (Moves-Follows noted (broadcast-Follows (write_update u) except _))
