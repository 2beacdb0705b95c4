-- ===== src/Crdt/Doc.antt =====
-- internal/crdt/doc.go: one document, and how an item finds its neighbours and its place.
--
-- An item that is not integrated yet is a value: `resolve` sets its neighbours only if it is
-- integrated right after. `fuel` bounds the walks along a list of items.
pub mod Place
pub mod Deletes
pub mod Queue
pub mod Placed
pub mod Deleted
pub mod Ready
pub mod Sound
pub mod Applied
pub mod Progress
pub mod Sync
pub mod Sent
use crdt_server.Base.{
  list_same, ℕ, zero, suc, ◌+◌, ◌-◌, List, [], ◌∷◌, ◌++◌, Bool, true, false, not, ◌&&◌, ◌||◌,
  Option, none, some, ltb, leb, ◌==◌, length, if◌then◌else◌, u64, sub_u64, is_negative, Result, ok,
  err, and_then,
}
use crdt_server.Crdt.{StructId, id_at}
use crdt_server.Crdt.Content
use crdt_server.Crdt.Content.{Content}
use crdt_server.Crdt.DeleteSet.{DeleteSet}
use crdt_server.Crdt.Struct.{Item, ParentInfo, root, owner, Struct, gc, skip, item, last_id}
use crdt_server.Crdt.Update.{Update}
use crdt_server.Crdt.Store.{
  Node, Cell, node, Store, new_store, state, get_item, clean_start, clean_end,
}

pub record Doc : Type 0 where
  pub client_id : ℕ
  pub store : Store
  -- The names of `share`; what a root type holds is in the store.
  pub roots : List (List ℕ)
  pub pending : List Update
  pub pending_deletes : DeleteSet

-- NewDoc
unfoldable pub new_doc : ℕ → Doc
new_doc client_id = record {
  client_id = client_id;
  store = new_store;
  roots = [];
  pending = [];
  pending_deletes = [];
}

abbrev pub with_store : Doc → Store → Doc
with_store d s = record d { store = s }

unfoldable pub has_root : List ℕ → List (List ℕ) → Bool
has_root name [] = false
has_root name (x ∷ xs) = list_same x name || has_root name xs

-- Doc.Get
unfoldable pub get_root : Doc → List ℕ → Doc
get_root d name = if has_root name d.roots then d else record d { roots = name ∷ d.roots }

-- A reference of an item to a struct of another client that is not there yet.
unfoldable pub is_missing : Doc → Item → Option StructId → Bool
is_missing d it none = false
is_missing d it (some id) =
    not (id.client == it.id.client) && leb (state d.store id.client) id.clock

abbrev pub owner_of : Option ParentInfo → Option StructId
owner_of none = none
owner_of (some (root name)) = none
owner_of (some (owner id)) = some id

-- The item as it comes out of the decoder.
abbrev pub fresh : Item → Node
fresh it = record { item = it; left = none; right = none; deleted = false }

abbrev pub with_parent : Option ParentInfo → Node → Node
with_parent p n = record n { item = record n.item { parent_type = p } }

-- What resolve gives: the item with its neighbours, and whether the walk through the fields ends
-- there because a neighbour's content is gone.
pub record Resolved : Type 0 where
  pub doc : Doc
  pub node : Node
  pub gone : Bool

abbrev pub resolved : Doc → Node → Bool → Resolved
resolved d n gone = record { doc = d; node = n; gone = gone }

-- `if it.Origin != nil { … }`
unfoldable pub resolve_left : Doc → Node → Resolved
resolve_left d n = elim n.item.origin [
  | none ↦ resolved d n false
  | some id ↦ elim (clean_end d.store id) [
    | err _ ↦ resolved d (with_parent none (record n { left = none })) true
    | ok (left, s) ↦
        resolved (with_store d s)
          (record n {
            left = some left.item.id;
            item = record n.item { origin = some (last_id left.item) };
          })
          false
  ]
]

-- `if it.RightOrigin != nil { … }`
unfoldable pub resolve_right : Doc → Node → Resolved
resolve_right d n = elim n.item.right_origin [
  | none ↦ resolved d n false
  | some id ↦ elim (clean_start d.store id) [
    | err _ ↦ resolved d (with_parent none (record n { right = none })) true
    | ok (right, s) ↦ resolved (with_store d s) (record n { right = some right.item.id }) false
  ]
]

-- The item that a pointer stands for.
unfoldable pub deref : Store → Option StructId → Option Node
deref s none = none
deref s (some id) = elim (get_item s id) [ ok n ↦ some n | err _ ↦ none ]

-- The parent and the key of a neighbour.
abbrev pub inherit : Node → Node → Node
inherit from n = record n {
  item = record n.item {
    parent_type = from.item.parent_type;
    has_parent_sub = from.item.has_parent_sub;
    parent_sub = from.item.parent_sub;
  };
}

-- The type that a ContentType item owns.
abbrev pub type_owned : Node → Option ParentInfo
type_owned n = elim n.item.content [ Content.type t ↦ some (owner n.item.id) | _ ↦ none ]

-- The switch on the parent at the end of resolve.
unfoldable pub resolve_parent : Doc → Node → Resolved
resolve_parent d n = elim n.item.parent [
  | none ↦ elim (deref d.store n.left) [
    | some l ↦ resolved d (inherit l n) false
    | none ↦ elim (deref d.store n.right) [
      | some r ↦ resolved d (inherit r n) false
      | none ↦ resolved d n false
    ]
  ]
  | some p ↦ elim p [
    | root name ↦ resolved (get_root d name) (with_parent (some (root name)) n) false
    | owner id ↦ elim (get_item d.store id) [
      | err _ ↦ resolved d (with_parent none n) false
      | ok o ↦ resolved d (with_parent (type_owned o) n) false
    ]
  ]
]

unfoldable pub resolve_then : Resolved → (Doc → Node → Resolved) → Resolved
resolve_then r f = if r.gone then r else f r.doc r.node

-- What resolve does once nothing is missing.
unfoldable pub resolve_item : Doc → Item → Resolved
resolve_item d it =
    resolve_then (resolve_then (resolve_left d (fresh it)) resolve_right) resolve_parent

-- Doc.resolve for an item; `none` is the result false.
unfoldable pub resolve : Doc → Item → Option Resolved
resolve d it =
    if is_missing d it it.origin
      || is_missing d it it.right_origin
      || is_missing d it (owner_of it.parent)
    then none
    else some (resolve_item d it)
