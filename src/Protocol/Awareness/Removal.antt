-- ===== src/Protocol/Awareness/Removal.antt =====
-- The removals of internal/protocol/awareness.go: remove, RemoveClients and Sweep.
use crdt_server.Base.{
  ℕ, ◌+◌, ◌-◌, List, [], ◌∷◌, false, not, ◌&&◌, Result, ok, leb, if◌then◌else◌, and_then,
}
use crdt_server.Base.GoMap.{GoMap, insert, sort_ascending}
use crdt_server.Protocol.Awareness.{Entry, Awareness, entry_of, encode, forget_after}

-- One round of the loop of remove.
unfoldable pub remove_one : ℕ → ℕ → Awareness → Awareness
unfolding entry_of
remove_one now id a =
    let e = entry_of a id in
    record a {
      entries = insert id (record e { present = false; state = []; last_updated = now }) a.entries;
      present = if e.present then a.present - 1 else a.present;
    }

unfoldable pub remove_each : ℕ → List ℕ → Awareness → Awareness
unfolding remove_one
remove_each now [] a = a
remove_each now (id ∷ ids) a = remove_each now ids (remove_one now id a)

-- The awareness afterwards, and the clients with the update that announces it.
abbrev pub Removal : Type 0
Removal = Awareness × Result (List ℕ × List ℕ)

unfoldable pub remove : Awareness → List ℕ → ℕ → Removal
unfolding remove_each encode
remove a ids now =
    let a' = remove_each now ids a in (a', and_then (encode a' ids) (λ payload. ok (ids, payload)))

unfoldable pub filter_present : Awareness → List ℕ → List ℕ
unfolding entry_of
filter_present a [] = []
filter_present a (id ∷ ids) =
    let rest = filter_present a ids in if (entry_of a id).present then id ∷ rest else rest

-- Nothing to remove gives three nils.
unfoldable pub remove_some : Awareness → List ℕ → ℕ → Removal
unfolding remove
remove_some a [] now = (a, ok ([], []))
remove_some a (id ∷ ids) now = remove a (id ∷ ids) now

unfoldable pub remove_clients : Awareness → List ℕ → ℕ → Removal
unfolding filter_present remove_some
remove_clients a ids now = remove_some a (filter_present a ids) now

-- The loop of Sweep: what stays of the entries, and the present clients not heard from.
unfoldable pub keep_recent : ℕ → GoMap Entry → GoMap Entry
keep_recent now [] = []
keep_recent now ((k, e) ∷ m) =
    let rest = keep_recent now m in
    if not e.present && leb (e.last_updated + forget_after) now then rest else (k, e) ∷ rest

unfoldable pub stale_clients : ℕ → ℕ → GoMap Entry → List ℕ
stale_clients now ttl [] = []
stale_clients now ttl ((k, e) ∷ m) =
    let rest = stale_clients now ttl m in
    if e.present && leb (e.last_updated + ttl) now then k ∷ rest else rest

unfoldable pub sweep : Awareness → ℕ → ℕ → Removal
unfolding keep_recent stale_clients remove_some
sweep a now ttl =
    remove_some (record a { entries = keep_recent now a.entries })
      (sort_ascending (stale_clients now ttl a.entries)) now
