-- ===== src/Crdt/Doc/Applied.antt =====
-- ApplyDecodedUpdate as a whole: the structs of the update, its deletions, and what waited.
use crdt_server.Base.{
  ℕ, suc, ◌≤◌, ◌≡◌, refl, List, [], ◌∷◌, Option, none, some, ltb, leb, Bool-cases, inl, inr,
}
use crdt_server.Base.GoMap
use crdt_server.Crdt.DeleteSet.{DeleteSet, DeleteRange, end_of, is_empty}
use crdt_server.Crdt.Update.{Update}
use crdt_server.Crdt.Store.{cells_of, state, new_store}
use crdt_server.Crdt.Store.Gapless.{IsGaplessFrom, Covers-Grows, Covers-same}
use crdt_server.Crdt.Doc.{Doc, new_doc}
use crdt_server.Crdt.Doc.Deletes.{
  apply_delete_range, apply_ranges, apply_clients, apply_delete_set, retry_deletes, delete_range,
}
use crdt_server.Crdt.Doc.Deleted.{delete_range-Covers}
use crdt_server.Crdt.Doc.Ready.{Advances, Advances-same, Advances-then}
use crdt_server.Crdt.Doc.Queue.{integrate, retry_pending, count_pending, apply_decoded_update}
use crdt_server.Crdt.Doc.Sound.{
  IsBoundedUpdate, IsWellFormed, Improves-then, Advances-Improves, integrate-Improves,
  retry_loop-Improves,
}

pub new_doc-IsWellFormed : (client_id : ℕ) → IsWellFormed (new_doc client_id)
unfolding new_doc new_store cells_of IsGaplessFrom GoMap.get GoMap.lookup
new_doc-IsWellFormed client_id = record {
  sound = λ c. record { gapless = tt; owned = tt };
  bounded = tt;
}

delete_range-Advances :
    (d e : Doc) (client from to : ℕ)
    → e.store ≡ delete_range d.store client from to
    → e.pending ≡ d.pending
    → Advances d e
delete_range-Advances d e client from to s p = record {
  grows = rw s (Covers-Grows (delete_range-Covers d.store client from to));
  pending = p;
}

apply_delete_range-Advances :
    (client at : ℕ) (r : DeleteRange) (d : Doc) → Advances d (apply_delete_range client at r d)
unfolding apply_delete_range
apply_delete_range-Advances client at r d = elim (Bool-cases (leb at r.clock)) [
  | inl e ↦ rw e (record { grows = Covers-Grows (Covers-same d.store); pending = refl })
  | inr e ↦ rw e (elim (Bool-cases (ltb at (end_of r))) [
    | inl k ↦ rw k (delete_range-Advances d _ client r.clock at refl refl)
    | inr k ↦ rw k (delete_range-Advances d _ client r.clock (end_of r) refl refl)
  ])
]

apply_ranges-Advances :
    (client at : ℕ) (rs : List DeleteRange) (d : Doc) → Advances d (apply_ranges client at rs d)
unfolding apply_ranges
apply_ranges-Advances client at [] d = Advances-same d
apply_ranges-Advances client at (r ∷ rs) d =
    Advances-then (apply_delete_range-Advances client at r d)
      (apply_ranges-Advances client at rs (apply_delete_range client at r d))

apply_clients-Advances : (ds : DeleteSet) (d : Doc) → Advances d (apply_clients ds d)
unfolding apply_clients
apply_clients-Advances [] d = Advances-same d
apply_clients-Advances ((client, ranges) ∷ rest) d =
    Advances-then (apply_ranges-Advances client (state d.store client) ranges d)
      (apply_clients-Advances rest (apply_ranges client (state d.store client) ranges d))

apply_delete_set-Advances : (d : Doc) (ds : Option DeleteSet) → Advances d (apply_delete_set d ds)
unfolding apply_delete_set
apply_delete_set-Advances d none = Advances-same d
apply_delete_set-Advances d (some ds) = apply_clients-Advances ds d

retry_deletes-Advances : (d : Doc) → Advances d (retry_deletes d)
unfolding retry_deletes
retry_deletes-Advances d =
    let emptied = record d { pending_deletes = [] } in
    let rest = apply_delete_set-Advances emptied (some d.pending_deletes) in
    elim (Bool-cases (is_empty d.pending_deletes)) [
      | inl e ↦ rw (e, retry_deletes) (Advances-same d)
      | inr e ↦ rw (e, retry_deletes) (record { grows = rest.grows; pending = rest.pending })
    ]

-- Applying a decoded update to a well-formed document gives a well-formed document, whose store has
-- no gap, and takes no client's clock back. The structs of the update must end below 2^63.
pub apply_decoded_update-IsWellFormed :
    (d : Doc) (u : Update)
    → IsWellFormed d
    → IsBoundedUpdate u
    → IsWellFormed (apply_decoded_update d u)
      × ((client : ℕ) → state d.store client ≤ state (apply_decoded_update d u).store client)
unfolding apply_decoded_update retry_pending
apply_decoded_update-IsWellFormed d u w h =
    let first = integrate-Improves d u.clients w h in
    let e = integrate d u.clients in
    let second =
      Improves-then first (Advances-Improves first.well (apply_delete_set-Advances e u.deletes)) in
    let f = apply_delete_set e u.deletes in
    let third =
      Improves-then second (retry_loop-Improves (suc (count_pending f.pending)) f second.well) in
    let all = Improves-then third (Advances-Improves third.well (retry_deletes-Advances _)) in
    (all.well, all.later)
