-- ===== src/Crdt/Doc/Queue.antt =====
-- internal/crdt/doc.go: ApplyUpdate, the queues of integrate, and the updates that wait.
--
-- integrate takes at least one struct from its queues in every turn but the last, so one turn more
-- than there are structs is enough; retryPending goes on only while fewer structs wait than before.
use crdt_server.Base.{
  ℕ, zero, suc, ◌+◌, List, [], ◌∷◌, ◌++◌, Bool, not, ◌&&◌, Option, none, some, ltb, leb, ◌==◌,
  length, if◌then◌else◌, is_negative, is_positive, u64, sub_u64, Result, ok, and_then,
}
use crdt_server.Base.GoMap.{GoMap}
use crdt_server.Crdt.{StructId, id_at}
use crdt_server.Crdt.Struct.{Struct, gc, skip, item, struct_id, struct_len}
use crdt_server.Crdt.Update.{Update, ClientBlock, decode_update}
use crdt_server.Crdt.Store.{Store, gc_cell, state}
use crdt_server.Crdt.Doc.{Doc, with_store, Resolved, resolve}
use crdt_server.Crdt.Doc.Place.{appended, integrate_item}
use crdt_server.Crdt.Doc.Deletes.{apply_delete_set, retry_deletes}

-- `queues` and `order`: the structs of each client, in the order in which clients appear.
abbrev pub Queues : Type 0
Queues = GoMap (List Struct)

unfoldable pub enqueue : ClientBlock → Queues → Queues
enqueue b [] = (b.client, b.structs) ∷ []
enqueue b ((client, queue) ∷ qs) =
    let rest = enqueue b qs in
    if client == b.client then (client, queue ++ b.structs) ∷ qs else (client, queue) ∷ rest

unfoldable pub enqueue_all : List ClientBlock → Queues → Queues
enqueue_all [] qs = qs
enqueue_all (b ∷ bs) qs = enqueue_all bs (enqueue b qs)

-- The GC struct from `offset` on.
abbrev pub gc_from : StructId → ℕ → ℕ → Store → Store
gc_from id n offset s =
    if is_positive offset
    then appended s (gc_cell (id_at id.client (u64 (id.clock + offset))) (sub_u64 n offset))
    else appended s (gc_cell id n)

-- What happens to the head of a queue: it is dropped or integrated, with the document
-- afterwards, or the queue stops at it.
pub data Turn : Type 0 where
  blocked : Turn
  taken : Doc → Turn

abbrev pub take_resolved : ℕ → Option Resolved → Turn
take_resolved offset none = blocked
take_resolved offset (some r) = taken (with_store r.doc (integrate_item r.doc.store r.node offset))

-- `resolve(head)` and `integrateStruct(head, offset)`
unfoldable pub take_struct : Doc → Struct → ℕ → Turn
take_struct d (gc id n) offset = taken (with_store d (gc_from id n offset d.store))
take_struct d (skip id n) offset = taken d
take_struct d (item it) offset = take_resolved offset (resolve d it)

-- `offset >= head.StructLen()` on signed integers
abbrev pub is_known : ℕ → ℕ → Bool
is_known offset len = not (is_negative offset) && leb len offset

-- A head that is not a Skip.
unfoldable pub offer_head : Doc → Struct → Turn
offer_head d s =
    let id = struct_id s in
    let at = state d.store id.client in
    if ltb at id.clock
    then blocked
    else (let offset = sub_u64 at id.clock in
        if is_known offset (struct_len s) then taken d else take_struct d s offset)

-- One turn of the loop over a queue.
unfoldable pub offer : Doc → Struct → Turn
offer d (skip id n) = taken d
offer d (gc id n) = offer_head d (gc id n)
offer d (item it) = offer_head d (item it)

-- `for len(queue) > 0 { … }`
unfoldable pub drain : Doc → List Struct → Doc × List Struct
drain d [] = (d, [])
drain d (s ∷ queue) = elim (offer d s) [ blocked ↦ (d, s ∷ queue) | taken e ↦ drain e queue ]

-- `for _, client := range order { … }`
unfoldable pub drain_all : Doc → Queues → Doc × Queues
drain_all d [] = (d, [])
drain_all d ((client, queue) ∷ qs) =
    let p = drain d queue in let rest = drain_all p.0 qs in (rest.0, (client, p.1) ∷ rest.1)

unfoldable pub waiting : Queues → ℕ
waiting [] = 0
waiting ((client, queue) ∷ qs) = length queue + waiting qs

-- The outer loop. There was progress exactly when a queue got shorter.
unfoldable pub turns : ℕ → Doc → Queues → Doc × Queues
turns zero d qs = (d, qs)
turns (suc fuel) d qs =
    let p = drain_all d qs in
    let rest = turns fuel p.0 p.1 in if waiting p.1 == waiting qs then p else rest

-- What is left of the queues, as an update.
unfoldable pub rest_blocks : Queues → List ClientBlock
rest_blocks [] = []
rest_blocks ((client, []) ∷ qs) = rest_blocks qs
rest_blocks ((client, s ∷ queue) ∷ qs) =
    record { client = client; start_clock = (struct_id s).clock; structs = s ∷ queue }
    ∷ rest_blocks qs

abbrev pub keep_pending : List ClientBlock → Doc → Doc
keep_pending [] d = d
keep_pending (b ∷ bs) d = record d {
  pending = d.pending ++ (record { clients = b ∷ bs; deletes = some [] } ∷ []);
}

-- Doc.integrate
unfoldable pub integrate : Doc → List ClientBlock → Doc
integrate d blocks =
    let qs = enqueue_all blocks [] in
    let p = turns (suc (waiting qs)) d qs in keep_pending (rest_blocks p.1) p.0

unfoldable pub count_structs : List ClientBlock → ℕ
count_structs [] = 0
count_structs (b ∷ bs) = length b.structs + count_structs bs

unfoldable pub count_pending : List Update → ℕ
count_pending [] = 0
count_pending (u ∷ us) = count_structs u.clients + count_pending us

unfoldable pub integrate_each : Doc → List Update → Doc
integrate_each d [] = d
integrate_each d (u ∷ us) = integrate_each (integrate d u.clients) us

-- One turn of the loop of retryPending.
unfoldable pub retry_once : Doc → Doc
retry_once d = integrate_each (record d { pending = [] }) d.pending

-- The loop; with nothing pending a turn does nothing and is the last.
unfoldable pub retry_loop : ℕ → Doc → Doc
retry_loop zero d = d
retry_loop (suc fuel) d =
    let e = retry_once d in
    let rest = retry_loop fuel e in
    if leb (count_pending d.pending) (count_pending e.pending) then e else rest

-- Doc.retryPending
unfoldable pub retry_pending : Doc → Doc
retry_pending d = retry_deletes (retry_loop (suc (count_pending d.pending)) d)

-- Doc.ApplyDecodedUpdate
unfoldable pub apply_decoded_update : Doc → Update → Doc
apply_decoded_update d u = retry_pending (apply_delete_set (integrate d u.clients) u.deletes)

-- Doc.ApplyUpdate
unfoldable pub apply_update : Doc → List ℕ → Result Doc
apply_update d bytes = and_then (decode_update bytes) (λ u. ok (apply_decoded_update d u))
