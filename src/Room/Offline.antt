-- ===== src/Room/Offline.antt =====
-- internal/room/read.go and write.go: reading a document, and merging into it, without a room.
use crdt_server.Base.{
  ℕ, suc, List, [], ◌∷◌, Bool, false, ◌&&◌, not, list_same, Option, none, some, if◌then◌else◌,
  Result, ok, err, and_then, no_document, wrong_owner,
}
use crdt_server.Crdt.Doc.{Doc, new_doc}
use crdt_server.Crdt.Doc.Queue.{apply_update}
use crdt_server.Cluster.Envelope.{Envelope}
use crdt_server.Storage.Uuid.{Uuid, document_id, owner_id}
use crdt_server.Room.{Snapshot}
use crdt_server.Room.Outbound.{kind_update}
use crdt_server.Room.Persist.{Stored, apply_stored, apply_snapshot}
use crdt_server.Room.Remote.{is_nil}
use crdt_server.Room.Handle.{encode_snapshot}

-- How many of the stored updates do not apply.
unfoldable pub count_skipped : List (List ℕ) → Doc → ℕ
count_skipped [] d = 0
count_skipped (u ∷ us) d = elim (apply_update d u) [
  | err _ ↦ suc (count_skipped us d)
  | ok e ↦ count_skipped us e
]

-- `stored.Snapshot == nil && len(stored.Updates) == 0`
unfoldable pub is_absent : Stored → Bool
is_absent found = elim found.snapshot [ none ↦ is_nil found.updates | some _ ↦ false ]

unfoldable pub read_stored : Stored → List ℕ → Result Snapshot
read_stored found sv = and_then (apply_snapshot found.snapshot (new_doc 0)) (λ d.
    and_then (encode_snapshot (apply_stored found.updates d) sv) (λ p. ok (record {
      update = p.0;
      state_vector = p.1;
      clients = none;
      resident = false;
      skipped = count_skipped found.updates d;
    })))

-- Fetch, with what LoadAny gives for an id.
unfoldable pub fetch :
    (List ℕ → List ℕ) → Option (Uuid → Result Stored) → List ℕ → List ℕ → Result Snapshot
fetch sha1 none name sv = err no_document
fetch sha1 (some load_any) name sv =
    and_then (load_any (document_id sha1 name))
      (λ found. if is_absent found then err no_document else read_stored found sv)

-- The calls that Import makes; S is what the database and the bus hold.
pub record Restore (S : Type 0) : Type 0 where
  pub ensure : Uuid → List ℕ → Uuid → S → Result Uuid × S
  pub append : Uuid → List (List ℕ) → S → Result (List ℕ) × S
  pub publish : Option (List ℕ → Envelope → S → Result (Unit {0}) × S)

-- A call, and what follows it where it succeeds.
abbrev pub call_then {ℓ} :
    {S : Type 0} {A : Type ℓ} {B : Type ℓ} → Result A × S → (A → S → Result B × S) → Result B × S
call_then (err e, s) next = (err e, s)
call_then (ok a, s) next = next a s

module _ {S : Type 0} (db : Restore S) (node_id : ℕ) (name update : List ℕ) where
  unfoldable pub tell_replicas : S → Result (Unit {0}) × S
  tell_replicas s = elim db.publish [
    | none ↦ (ok tt, s)
    | some publish ↦
        publish name (record { origin = node_id; kind = kind_update; payload = update }) s
  ]

  unfoldable pub append_restored : Uuid → S → Result (Unit {0}) × S
  append_restored id s = call_then (db.append id (update ∷ []) s) (λ rows. tell_replicas)

  -- Import where there is a store and the update decodes, for an id and the tenant's name and id.
  unfoldable pub restore : Uuid → List ℕ → Uuid → S → Result (Unit {0}) × S
  restore id owner want s = call_then (db.ensure id name want s) (λ found t.
      if not (is_nil owner) && not (list_same found want)
      then (err wrong_owner, t)
      else append_restored id t)

-- Import
unfoldable pub import_update :
    {S : Type 0}
    → (List ℕ → List ℕ)
    → Option (Restore S)
    → ℕ
    → List ℕ
    → List ℕ
    → List ℕ
    → S
    → Result (Unit {0}) × S
import_update sha1 none node_id owner name update s = (err no_document, s)
import_update sha1 (some db) node_id owner name update s = elim (apply_update (new_doc 0) update) [
  | err e ↦ (err e, s)
  | ok _ ↦ restore db node_id name update (document_id sha1 name) owner (owner_id sha1 owner) s
]
