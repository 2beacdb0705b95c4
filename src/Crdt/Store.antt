-- ===== src/Crdt/Store.antt =====
-- internal/crdt/structstore.go: the structs that a document has integrated, by client.
--
-- An item in the store never changes the id that it starts at, and no other struct starts there,
-- so a pointer to an item is that id. A pointer to a type is the root's name or the id of the item
-- that owns it. What Go keeps in the objects, the links of an item and the first child and the map
-- entries of a type, is in the store with them. `keep`, which nothing sets or reads, is left out.
pub mod Gapless
pub mod Links
pub mod Find
pub mod Split
pub mod Clean
use crdt_server.Base.{
  ℕ, zero, suc, ◌+◌, ◌-◌, List, [], ◌∷◌, ◌++◌, Bool, true, false, not, ◌&&◌, ◌||◌, Option, none,
  some, ltb, list_same, leb, ◌==◌, length, take, drop, get_elem?, if◌then◌else◌, u64, sub_u64,
  Result, ok, err, and_then, missing_struct, clock_gap,
}
use crdt_server.Base.GoMap
use crdt_server.Base.GoMap.{GoMap, insert, keys, sort_descending}
use crdt_server.Crdt.{StructId, id_at}
use crdt_server.Crdt.StateVector.{StateVector}
use crdt_server.Crdt.Content.{Content, splice, content_len}
use crdt_server.Crdt.DeleteSet.{search_first}
use crdt_server.Crdt.Struct
use crdt_server.Crdt.Struct.{Item, ParentInfo, root, owner, Struct, struct_id, struct_len}

-- An integrated item. Its parent type is the item's `parent_type`.
pub record Node : Type 0 where
  pub item : Item
  pub left : Option StructId
  pub right : Option StructId
  pub deleted : Bool

pub data Cell : Type 0 where
  gc_cell skip_cell : StructId → ℕ → Cell
  node : Node → Cell

abbrev pub struct_of : Cell → Struct
struct_of (gc_cell id n) = Struct.gc id n
struct_of (skip_cell id n) = Struct.skip id n
struct_of (node n) = Struct.item n.item

abbrev pub cell_clock : Cell → ℕ
cell_clock c = (struct_id (struct_of c)).clock

abbrev pub cell_len : Cell → ℕ
cell_len c = struct_len (struct_of c)

-- `st.StructID().Clock + Clock(st.StructLen())`
abbrev pub cell_end : Cell → ℕ
cell_end c = u64 (cell_clock c + cell_len c)

pub record Store : Type 0 where
  pub clients : GoMap (List Cell)
  -- `start` of a type
  pub start : ParentInfo → Option StructId
  -- `mapItems[key]` of a type
  pub map_item : ParentInfo → List ℕ → Option StructId

unfoldable pub new_store : Store
new_store = record { clients = []; start = λ _. none; map_item = λ _ _. none }

-- `s.clients[client]`
unfoldable pub cells_of : Store → ℕ → List Cell
cells_of s client = GoMap.get [] client s.clients

unfoldable pub put_cells : ℕ → List Cell → Store → Store
put_cells client cs s = record s { clients = insert client cs s.clients }

unfoldable pub end_of_cells : List Cell → ℕ
end_of_cells [] = 0
end_of_cells (c ∷ []) = cell_end c
end_of_cells (c ∷ d ∷ cs) = end_of_cells (d ∷ cs)

-- StructStore.State
unfoldable pub state : Store → ℕ → ℕ
state s client = end_of_cells (cells_of s client)

unfoldable pub state_vector_of : Store → List ℕ → StateVector
state_vector_of s [] = []
state_vector_of s (client ∷ rest) = insert client (state s client) (state_vector_of s rest)

-- StructStore.StateVector
unfoldable pub state_vector : Store → StateVector
state_vector s = state_vector_of s (keys s.clients)

-- StructStore.Clients
unfoldable pub clients_descending : Store → List ℕ
clients_descending s = sort_descending (keys s.clients)

-- StructStore.Append
unfoldable pub append : Store → Cell → Result Store
append s c =
    let id = struct_id (struct_of c) in
    if state s id.client == id.clock
    then ok (put_cells id.client (cells_of s id.client ++ (c ∷ [])) s)
    else err clock_gap

-- A test of the cell at an index.
abbrev pub cell_is : List Cell → (Cell → Bool) → ℕ → Bool
cell_is cs p i = elim (get_elem? cs i) [ none ↦ false | some c ↦ p c ]

-- The search in StructStore.find, with its check of what was found.
unfoldable pub find_cell : List Cell → ℕ → Result ℕ
find_cell cs clock =
    let i = search_first (length cs) (cell_is cs (λ c. ltb clock (cell_end c))) in
    if ltb i (length cs) && cell_is cs (λ c. leb (cell_clock c) clock) i
    then ok i
    else err missing_struct

-- StructStore.find
unfoldable pub find : Store → StructId → Result ℕ
find s id = find_cell (cells_of s id.client) id.clock

abbrev pub at_index : List Cell → ℕ → Result Cell
at_index cs i = elim (get_elem? cs i) [ none ↦ err missing_struct | some c ↦ ok c ]

-- StructStore.Get
unfoldable pub get : Store → StructId → Result Cell
get s id = and_then (find s id) (at_index (cells_of s id.client))

-- `it, ok := st.(*Item)`
abbrev pub node_of : Cell → Result Node
node_of (node n) = ok n
node_of (gc_cell id n) = err missing_struct
node_of (skip_cell id n) = err missing_struct

-- StructStore.GetItem
unfoldable pub get_item : Store → StructId → Result Node
get_item s id = and_then (get s id) node_of

abbrev pub same_struct_id : StructId → StructId → Bool
same_struct_id a b = a.client == b.client && a.clock == b.clock

unfoldable pub change_node : StructId → (Node → Node) → List Cell → List Cell
change_node id f [] = []
change_node id f (gc_cell j n ∷ cs) = gc_cell j n ∷ change_node id f cs
change_node id f (skip_cell j n ∷ cs) = skip_cell j n ∷ change_node id f cs
change_node id f (node n ∷ cs) =
    node (if same_struct_id n.item.id id then f n else n) ∷ change_node id f cs

-- An assignment to a field of the item that a pointer stands for.
unfoldable pub assign : StructId → (Node → Node) → Store → Store
assign id f s = put_cells id.client (change_node id f (cells_of s id.client)) s

-- `if p != nil { … }` around such an assignment.
unfoldable pub assign_to : Option StructId → (Node → Node) → Store → Store
assign_to none f s = s
assign_to (some id) f s = assign id f s

abbrev pub set_left : Option StructId → Node → Node
set_left p n = record n { left = p }

abbrev pub set_right : Option StructId → Node → Node
set_right p n = record n { right = p }

abbrev pub same_type : ParentInfo → ParentInfo → Bool
same_type (root a) (root b) = list_same a b
same_type (owner a) (owner b) = same_struct_id a b
same_type _ _ = false

-- `t.start = p`
unfoldable pub set_start : ParentInfo → Option StructId → Store → Store
set_start t p s = record s { start = λ u. if same_type t u then p else s.start u }

-- `t.mapItems[key] = p`
unfoldable pub set_map_item : ParentInfo → List ℕ → StructId → Store → Store
set_map_item t key p s = record s {
  map_item = λ u k. if same_type t u && list_same key k then some p else s.map_item u k;
}

-- The right half that splitItem makes.
unfoldable pub right_half : Node → ℕ → Content → Node
right_half n offset tail =
    let it = n.item in
    let clock = u64 (it.id.clock + offset) in
    record {
      item = record it {
        id = id_at it.id.client clock;
        origin = some (id_at it.id.client (sub_u64 clock 1));
        content = tail;
      };
      left = some it.id;
      right = n.right;
      deleted = n.deleted;
    }

-- The left half that stays in the place of the item.
unfoldable pub left_half : Node → ℕ → Content → Node
left_half n offset head = record n {
  item = record n.item { content = head };
  right = some (id_at n.item.id.client (u64 (n.item.id.clock + offset)));
}

-- `if right.HasParentSub && right.right == nil && right.parent != nil { … }`
unfoldable pub hand_over_key : Node → Store → Store
hand_over_key r s =
    if r.item.has_parent_sub
    then elim r.right [
      | some _ ↦ s
      | none ↦ elim r.item.parent_type [
        | none ↦ s
        | some t ↦ set_map_item t r.item.parent_sub r.item.id s
      ]
    ]
    else s

-- The cells around `index`, with both halves in place of what is there.
unfoldable pub put_halves : ℕ → Node → Node → List Cell → List Cell
put_halves index l r cs = take index cs ++ (node l ∷ node r ∷ drop (suc index) cs)

-- StructStore.splitItem, for the item at `index` of its client: the two halves and the store.
unfoldable pub split_item : Store → Node → ℕ → ℕ → Result ((Node × Node) × Store)
split_item s n offset index = and_then (splice n.item.content offset) (λ parts.
    let l = left_half n offset parts.0 in
    let r = right_half n offset parts.1 in
    let client = n.item.id.client in
    let halved = put_cells client (put_halves index l r (cells_of s client)) s in
    ok ((l, r), hand_over_key r (assign_to n.right (set_left (some r.item.id)) halved)))

-- The item at the index that `find` gives, by its pointer.
unfoldable pub find_item : Store → StructId → Result (ℕ × Node)
find_item s id =
    and_then (find s id)
      (λ i. and_then (and_then (at_index (cells_of s id.client) i) node_of) (λ n. ok (i, n)))

-- What GetItemCleanStart and GetItemCleanEnd do with the item that covers the id.
unfoldable pub clean_start_at : Store → StructId → ℕ × Node → Result (Node × Store)
clean_start_at s id p =
    let offset = sub_u64 id.clock p.1.item.id.clock in
    if offset == 0
    then ok (p.1, s)
    else and_then (split_item s p.1 offset p.0) (λ t. ok (t.0.1, t.1))

unfoldable pub clean_end_at : Store → StructId → ℕ × Node → Result (Node × Store)
clean_end_at s id p =
    let offset = sub_u64 id.clock p.1.item.id.clock in
    if offset == sub_u64 (content_len p.1.item.content) 1
    then ok (p.1, s)
    else and_then (split_item s p.1 (u64 (offset + 1)) p.0) (λ t. ok (t.0.0, t.1))

-- StructStore.GetItemCleanStart
unfoldable pub clean_start : Store → StructId → Result (Node × Store)
clean_start s id = and_then (find_item s id) (clean_start_at s id)

-- StructStore.GetItemCleanEnd
unfoldable pub clean_end : Store → StructId → Result (Node × Store)
clean_end s id = and_then (find_item s id) (clean_end_at s id)
