-- ===== src/Crdt/Doc/Deletes.antt =====
-- internal/crdt/doc.go: the deletions of an update, and the deletions that a document knows of.
--
-- deleteRange splits at most one item, at the end of the range, so the cells there were and one
-- more bound its loop.
use crdt_server.Base.{
  ℕ, zero, suc, List, [], ◌∷◌, Bool, true, false, Option, none, some, ltb, leb, length, get_elem?,
  if◌then◌else◌, sub_u64, ok, err,
}
use crdt_server.Base.GoMap.{GoMap}
use crdt_server.Crdt.{StructId, id_at}
use crdt_server.Crdt.DeleteSet.{DeleteSet, DeleteRange, end_of, is_empty, add}
use crdt_server.Crdt.Store.{
  Node, Cell, gc_cell, skip_cell, node, cell_clock, cell_len, cell_end, Store, cells_of, state,
  find, get, clean_start, split_item,
}
use crdt_server.Crdt.Doc.{Doc, with_store}
use crdt_server.Crdt.Doc.Place.{delete_item}

-- The split at the start of a range: the store afterwards, or nothing if nothing is there.
unfoldable pub starting_at : Store → StructId → Option Store
starting_at s id = elim (clean_start s id) [
  | ok (n, t) ↦ some t
  | err _ ↦ elim (get s id) [ ok c ↦ some s | err _ ↦ none ]
]

-- The body of the loop for an item that is not deleted.
unfoldable pub delete_part : Store → Node → ℕ → ℕ → Store
delete_part s n to index =
    if ltb to (cell_end (node n))
    then elim (split_item s n (sub_u64 to n.item.id.clock) index) [
      | err _ ↦ s
      | ok (halves, t) ↦ delete_item n.item.id t
    ]
    else delete_item n.item.id s

-- The body of the loop after the test of the clock.
unfoldable pub delete_cell : Store → Cell → ℕ → ℕ → Store
delete_cell s (gc_cell id n) to index = s
delete_cell s (skip_cell id n) to index = s
delete_cell s (node n) to index = if n.deleted then s else delete_part s n to index

unfoldable pub delete_cells : ℕ → Store → ℕ → ℕ → ℕ → Store
delete_cells zero s client to index = s
delete_cells (suc fuel) s client to index = elim (get_elem? (cells_of s client) index) [
  | none ↦ s
  | some c ↦
      let rest = delete_cells fuel (delete_cell s c to index) client to (suc index) in
      if leb to (cell_clock c) then s else rest
]

-- The loop of deleteRange.
unfoldable pub delete_from : Store → StructId → ℕ → Store
delete_from s id to = elim (find s id) [
  | err _ ↦ s
  | ok index ↦ delete_cells (suc (length (cells_of s id.client))) s id.client to index
]

-- Doc.deleteRange
unfoldable pub delete_range : Store → ℕ → ℕ → ℕ → Store
delete_range s client from to =
    if leb to from then s else elim (starting_at s (id_at client from)) [
      | none ↦ s
      | some t ↦ delete_from t (id_at client from) to
    ]

abbrev pub hold_back : ℕ → ℕ → ℕ → Doc → Doc
hold_back client clock len d = record d { pending_deletes = add d.pending_deletes client clock len }

abbrev pub in_store : (Store → Store) → Doc → Doc
in_store f d = with_store d (f d.store)

-- The body of the loop of applyDeleteSet, for a range of a client whose clock stands at `at`.
unfoldable pub apply_delete_range : ℕ → ℕ → DeleteRange → Doc → Doc
apply_delete_range client at r d =
    if leb at r.clock
    then hold_back client r.clock r.len d
    else (if ltb at (end_of r)
        then in_store (λ s. delete_range s client r.clock at)
            (hold_back client at (sub_u64 (end_of r) at) d)
        else in_store (λ s. delete_range s client r.clock (end_of r)) d)

unfoldable pub apply_ranges : ℕ → ℕ → List DeleteRange → Doc → Doc
apply_ranges client at [] d = d
apply_ranges client at (r ∷ rs) d = apply_ranges client at rs (apply_delete_range client at r d)

unfoldable pub apply_clients : DeleteSet → Doc → Doc
apply_clients [] d = d
apply_clients ((client, ranges) ∷ rest) d =
    apply_clients rest (apply_ranges client (state d.store client) ranges d)

-- Doc.applyDeleteSet
unfoldable pub apply_delete_set : Doc → Option DeleteSet → Doc
apply_delete_set d none = d
apply_delete_set d (some ds) = apply_clients ds d

-- The last part of retryPending.
unfoldable pub retry_deletes : Doc → Doc
retry_deletes d =
    if is_empty d.pending_deletes
    then d
    else apply_delete_set (record d { pending_deletes = [] }) (some d.pending_deletes)

-- The switch on a struct in DeleteSet.
unfoldable pub is_deleted_cell : Cell → Bool
is_deleted_cell (node n) = n.deleted
is_deleted_cell (gc_cell id n) = true
is_deleted_cell (skip_cell id n) = false

unfoldable pub add_deleted : ℕ → List Cell → DeleteSet → DeleteSet
add_deleted client [] ds = ds
add_deleted client (c ∷ cs) ds =
    add_deleted client cs
      (if is_deleted_cell c then add ds client (cell_clock c) (cell_len c) else ds)

unfoldable pub deleted_in : GoMap (List Cell) → DeleteSet → DeleteSet
deleted_in [] ds = ds
deleted_in ((client, cs) ∷ rest) ds = deleted_in rest (add_deleted client cs ds)

-- Doc.DeleteSet
unfoldable pub delete_set : Doc → DeleteSet
delete_set d = deleted_in d.store.clients []

unfoldable pub add_ranges : ℕ → List DeleteRange → DeleteSet → DeleteSet
add_ranges client [] ds = ds
add_ranges client (r ∷ rs) ds = add_ranges client rs (add ds client r.clock r.len)

unfoldable pub add_all : DeleteSet → DeleteSet → DeleteSet
add_all [] ds = ds
add_all ((client, ranges) ∷ rest) ds = add_all rest (add_ranges client ranges ds)

-- Doc.deleteSetForUpdate
unfoldable pub delete_set_for_update : Doc → DeleteSet
delete_set_for_update d = add_all d.pending_deletes (delete_set d)
