-- ===== src/Crdt/Doc/Sync.antt =====
-- internal/crdt/doc.go: what a document sends to the holder of a state vector.
use crdt_server.Base.{
  ℕ, List, [], ◌∷◌, Option, none, some, ltb, leb, drop, if◌then◌else◌, Result, ok, err, and_then,
}
use crdt_server.Crdt.{id_at}
use crdt_server.Crdt.StateVector.{StateVector}
use crdt_server.Crdt.StateVector
use crdt_server.Crdt.Struct.{Struct}
use crdt_server.Crdt.Update.{Update, ClientBlock, encode}
use crdt_server.Crdt.Store.{
  Cell, struct_of, cell_clock, Store, cells_of, state, state_vector, find, clients_descending,
}
use crdt_server.Crdt.Doc.{Doc}
use crdt_server.Crdt.Doc.Deletes.{delete_set_for_update}

-- Doc.EncodeStateVector
unfoldable pub encode_state_vector : Doc → Result (List ℕ)
encode_state_vector d = StateVector.encode_state_vector (state_vector d.store)

abbrev pub structs_of : List Cell → List Struct
structs_of [] = []
structs_of (c ∷ cs) = struct_of c ∷ structs_of cs

-- `if first := structs[0].StructID().Clock; clock < first { clock = first }`
abbrev pub from_first : Cell → ℕ → ℕ
from_first c clock = if ltb clock (cell_clock c) then cell_clock c else clock

unfoldable pub block_at : Store → ℕ → ℕ → Option ClientBlock
block_at s client clock = elim (find s (id_at client clock)) [
  | err _ ↦ none
  | ok index ↦ some (record {
    client = client;
    start_clock = clock;
    structs = structs_of (drop index (cells_of s client));
  })
]

-- The body of the loop over the clients, with the state vector's clock for the client.
unfoldable pub block_from : Store → ℕ → ℕ → List Cell → Option ClientBlock
block_from s client clock [] = none
block_from s client clock (c ∷ cs) =
    if leb (state s client) clock then none else block_at s client (from_first c clock)

unfoldable pub add_block : Option ClientBlock → List ClientBlock → List ClientBlock
add_block none bs = bs
add_block (some b) bs = b ∷ bs

unfoldable pub missing_blocks : Store → StateVector → List ℕ → List ClientBlock
missing_blocks s sv [] = []
missing_blocks s sv (client ∷ rest) =
    add_block (block_from s client (StateVector.get sv client) (cells_of s client))
      (missing_blocks s sv rest)

-- The update that EncodeStateAsUpdate encodes.
unfoldable pub missing_update : Doc → StateVector → Update
missing_update d sv = record {
  clients = missing_blocks d.store sv (clients_descending d.store);
  deletes = some (delete_set_for_update d);
}

-- Doc.EncodeStateAsUpdate; a nil state vector is the empty one.
unfoldable pub encode_state_as_update : Doc → StateVector → Result (List ℕ)
encode_state_as_update d sv = encode (missing_update d sv)

-- Doc.EncodeDiff
unfoldable pub encode_diff : Doc → List ℕ → Result (List ℕ)
encode_diff d bytes = and_then (StateVector.decode_state_vector bytes) (encode_state_as_update d)
