-- ===== src/Crdt/Doc/Place.antt =====
-- internal/crdt/doc.go: the place of an item in its parent's list, and its integration.
--
-- Sets of items are lists of their ids. `cell_count` bounds the walks along a list of items: an
-- item of a list without a cycle is met once.
use crdt_server.Base.{
  ℕ, zero, suc, ◌+◌, List, [], ◌∷◌, Bool, true, false, not, ◌&&◌, ◌||◌, Option, none, some, ltb,
  length, if◌then◌else◌, is_positive, u64, sub_u64, ok, err,
}
use crdt_server.Base.GoMap.{GoMap}
use crdt_server.Crdt.{StructId, id_at}
use crdt_server.Crdt.Content.{Content, splice}
use crdt_server.Crdt.Struct.{Item, ParentInfo, root, owner, item, struct_len, last_id}
use crdt_server.Crdt.Store.{
  Node, Cell, gc_cell, node, Store, append, clean_end, same_struct_id, assign, set_left, set_right,
  set_start, set_map_item,
}
use crdt_server.Crdt.Doc.{deref}

unfoldable pub count_cells : GoMap (List Cell) → ℕ
count_cells [] = 0
count_cells ((client, cs) ∷ rest) = length cs + count_cells rest

abbrev pub cell_count : Store → ℕ
cell_count s = count_cells s.clients

-- leftmost
unfoldable pub leftmost : ℕ → Store → Option StructId → Option StructId
leftmost zero s p = p
leftmost (suc fuel) s p = elim (deref s p) [
  | none ↦ p
  | some n ↦ elim n.left [ none ↦ p | some l ↦ leftmost fuel s (some l) ]
]

-- sameID, and the comparison of two pointers to items
abbrev pub same_id : Option StructId → Option StructId → Bool
same_id none none = true
same_id (some a) (some b) = same_struct_id a b
same_id _ _ = false

unfoldable pub has_id : StructId → List StructId → Bool
has_id id [] = false
has_id id (x ∷ xs) = same_struct_id x id || has_id id xs

-- `set[d.itemAt(*p)]` for a pointer that may be nil
unfoldable pub has_item_at : Store → List StructId → Option StructId → Bool
has_item_at s ids p = elim (deref s p) [ none ↦ false | some n ↦ has_id n.item.id ids ]

-- One turn of the loop in resolveConflict: it returns, or goes on with a `left` and a set
-- `conflicting`.
pub data Turn : Type 0 where
  stop_at : Option StructId → Turn
  go_on : Option StructId → List StructId → Turn

unfoldable pub conflict_turn :
    Store → Node → Node → Option StructId → List StructId → List StructId → Turn
conflict_turn s it o left conflicting before =
    if same_id it.item.origin o.item.origin
    then (if ltb o.item.id.client it.item.id.client
        then go_on (some o.item.id) []
        else (if same_id it.item.right_origin o.item.right_origin
            then stop_at left
            else go_on left conflicting))
    else (if has_item_at s before o.item.origin
        then (if has_item_at s conflicting o.item.origin
            then go_on left conflicting
            else go_on (some o.item.id) [])
        else stop_at left)

-- The item `o` of the loop, while its condition holds.
abbrev pub scanned : Store → Node → Option StructId → Option Node
scanned s it o = if same_id o it.right then none else deref s o

unfoldable pub scan_conflicts :
    ℕ
    → Store
    → Node
    → Option StructId
    → Option StructId
    → List StructId
    → List StructId
    → Option StructId
scan_conflicts zero s it left p conflicting before = left
scan_conflicts (suc fuel) s it left p conflicting before = elim (scanned s it p) [
  | none ↦ left
  | some o ↦ elim (conflict_turn s it o left (o.item.id ∷ conflicting) (o.item.id ∷ before)) [
    | stop_at l ↦ l
    | go_on l c ↦ scan_conflicts fuel s it l o.right c (o.item.id ∷ before)
  ]
]

-- The start of the list that an item without a left neighbour belongs to.
unfoldable pub first_of : Store → ParentInfo → Item → Option StructId
first_of s t it =
    if it.has_parent_sub then leftmost (cell_count s) s (s.map_item t it.parent_sub) else s.start t

-- `it.right` of an item, nil for no item
abbrev pub right_of : Option Node → Option StructId
right_of none = none
right_of (some n) = n.right

-- The `o` that the loop starts with.
unfoldable pub conflicts_from : Store → ParentInfo → Node → Option StructId
conflicts_from s t it = elim it.left [
  | some l ↦ right_of (deref s (some l))
  | none ↦ first_of s t it.item
]

-- Doc.resolveConflict for an item of the type `t`
unfoldable pub resolve_conflict : Store → ParentInfo → Node → Option StructId
resolve_conflict s t it = scan_conflicts (cell_count s) s it it.left (conflicts_from s t it) [] []

-- The test before the call of resolveConflict.
unfoldable pub is_conflicting : Store → Node → Bool
is_conflicting s it = elim it.left [
  | none ↦ elim (deref s it.right) [ none ↦ true | some r ↦ not (same_id r.left none) ]
  | some l ↦ not (same_id (right_of (deref s (some l))) it.right)
]

abbrev pub set_deleted : Node → Node
set_deleted n = if n.deleted then n else record n { deleted = true }

-- Doc.deleteItem
unfoldable pub delete_item : StructId → Store → Store
delete_item id s = assign id set_deleted s

-- `_ = d.store.Append(c)`
unfoldable pub appended : Store → Cell → Store
appended s c = elim (append s c) [ ok t ↦ t | err _ ↦ s ]

-- The first half of the relinking: the item with its right neighbour, and the store.
unfoldable pub link_left : Store → ParentInfo → Node → Node × Store
link_left s t it = elim it.left [
  | some l ↦ (set_right (right_of (deref s (some l))) it, assign l (set_right (some it.item.id)) s)
  | none ↦ (
    set_right (first_of s t it.item) it,
    if it.item.has_parent_sub then s else set_start t (some it.item.id) s,
  )
]

abbrev pub delete_at : Option StructId → Store → Store
delete_at none s = s
delete_at (some id) s = delete_item id s

-- The second half: the right neighbour, or the key of the parent's map.
unfoldable pub link_right : ParentInfo → Node → Store → Store
link_right t it s = elim it.right [
  | some r ↦ assign r (set_left (some it.item.id)) s
  | none ↦
      if it.item.has_parent_sub
      then delete_at it.left (set_map_item t it.item.parent_sub it.item.id s)
      else s
]

unfoldable pub is_deleted_type : Store → ParentInfo → Bool
is_deleted_type s (root name) = false
is_deleted_type s (owner id) = elim (deref s (some id)) [ none ↦ false | some n ↦ n.deleted ]

abbrev pub is_content_deleted : Content → Bool
is_content_deleted (Content.deleted n) = true
is_content_deleted _ = false

-- What integrateItem does after Append.
unfoldable pub settle : ParentInfo → Node → Store → Store
settle t it s =
    let marked =
      if is_content_deleted it.item.content then assign it.item.id set_deleted s else s in
    if is_deleted_type marked t || (it.item.has_parent_sub && not (same_id it.right none))
    then delete_item it.item.id marked
    else marked

unfoldable pub link : Store → ParentInfo → Node → Store
link s t it = let p = link_left s t it in settle t p.0 (appended (link_right t p.0 p.1) (node p.0))

-- The conflict resolution and the relinking, for an item of the type `t`.
unfoldable pub attach : Store → ParentInfo → Node → Store
attach s t it = link s t (if is_conflicting s it then set_left (resolve_conflict s t it) it else it)

-- integrateItem from its test of the parent on.
unfoldable pub place : Store → Node → Store
place s it = elim it.item.parent_type [
  | none ↦ appended s (gc_cell it.item.id (struct_len (item it.item)))
  | some t ↦ attach s t it
]

-- The item from `offset` on, after its left neighbour is found.
abbrev pub cut_off : Node → StructId → Node → Content → Node
cut_off it id l tail = record it {
  item = record it.item { id = id; origin = some (last_id l.item); content = tail };
  left = some l.item.id;
}

-- `if offset > 0 { … }` and what follows it, where the item now starts at `id`.
unfoldable pub place_rest : Store → Node → ℕ → StructId → Store
place_rest s it offset id = elim (clean_end s (id_at id.client (sub_u64 id.clock 1))) [
  | err _ ↦ s
  | ok (l, t) ↦ elim (splice it.item.content offset) [
    | err _ ↦ t
    | ok (head, tail) ↦ place t (cut_off it id l tail)
  ]
]

-- Doc.integrateItem
unfoldable pub integrate_item : Store → Node → ℕ → Store
integrate_item s it offset =
    if is_positive offset
    then place_rest s it offset (id_at it.item.id.client (u64 (it.item.id.clock + offset)))
    else place s it
