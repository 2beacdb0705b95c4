-- ===== src/Crdt/Update.antt =====
-- internal/crdt/update.go: a decoded v1 update, and its codec.
pub mod Order
pub mod RoundTrip
pub mod Decoded
pub mod Vector
use crdt_server.Base.{
  ℕ, zero, suc, ◌+◌, ◌-◌, ◌^◌, List, [], ◌∷◌, Bool, true, false, ◌&&◌, Option, none, some, ltb, leb,
  length, if◌then◌else◌, u64, sub_u64, Result, err, unexpected_eof, corrupt_update,
}
use crdt_server.Base.GoMap
use crdt_server.Lib0.Decoder.{Read, ◌>>=◌, pure, remaining, read_var_uint}
use crdt_server.Lib0.Encoder.{Encoder, new_encoder, write_var_uint}
use crdt_server.Lib0.Transfer.{read_times, write_each, finish, whole}
use crdt_server.Crdt.{StructId, read_safe_var_uint}
use crdt_server.Crdt.StateVector.{StateVector}
use crdt_server.Crdt.StateVector
use crdt_server.Crdt.DeleteSet.{DeleteSet, write_delete_set, read_delete_set}
use crdt_server.Crdt.Struct.{Struct, struct_id, struct_len, write_struct, read_struct}

pub record ClientBlock : Type 0 where
  pub client : ℕ
  pub start_clock : ℕ
  pub structs : List Struct

pub record Update : Type 0 where
  pub clients : List ClientBlock
  pub deletes : Option DeleteSet

unfoldable pub is_descending_by_client : List ClientBlock → Bool
is_descending_by_client [] = true
is_descending_by_client (b ∷ []) = true
is_descending_by_client (a ∷ b ∷ bs) = ltb b.client a.client && is_descending_by_client (b ∷ bs)

unfoldable pub insert_block : ClientBlock → List ClientBlock → List ClientBlock
insert_block b [] = b ∷ []
insert_block b (x ∷ xs) =
    let rest = insert_block b xs in if ltb b.client x.client then x ∷ rest else b ∷ x ∷ xs

-- `sort.SliceStable`, higher clients first: a block goes in front of a later one of its client.
unfoldable pub sort_blocks : List ClientBlock → List ClientBlock
unfolding insert_block
sort_blocks [] = []
sort_blocks (b ∷ bs) = insert_block b (sort_blocks bs)

-- The blocks in the order in which they are written.
unfoldable pub ordered : List ClientBlock → List ClientBlock
ordered bs = if is_descending_by_client bs then bs else sort_blocks bs

-- `int(block.StartClock - s.StructID().Clock)` for the first struct; the others are whole.
unfoldable pub write_structs : ℕ → List Struct → Encoder → Encoder
write_structs start_clock [] e = e
write_structs start_clock (s ∷ ss) e =
    write_each (λ t. write_struct t 0) ss
      (write_struct s (sub_u64 start_clock (struct_id s).clock) e)

unfoldable pub write_block : ClientBlock → Encoder → Encoder
write_block b e =
    write_structs b.start_clock b.structs
      (write_var_uint b.start_clock (write_var_uint b.client (write_var_uint (length b.structs) e)))

unfoldable pub write_deletes : Option DeleteSet → Encoder → Encoder
write_deletes none e = write_var_uint 0 e
write_deletes (some ds) e = write_delete_set ds e

-- Update.write
unfoldable pub write_update : Update → Encoder → Encoder
write_update u e =
    let blocks = ordered u.clients in
    write_deletes u.deletes (write_each write_block blocks (write_var_uint (length blocks) e))

unfoldable pub encode : Update → Result (List ℕ)
encode u = finish (write_update u new_encoder)

-- The structs of a block; each starts where the one before it ends.
unfoldable pub read_structs : ℕ → ℕ → ℕ → Read (List Struct)
read_structs zero client clock = pure []
read_structs (suc n) client clock = do
  s ← read_struct client clock
  ss ← read_structs n client (u64 (clock + struct_len s))
  pure (s ∷ ss)

unfoldable pub read_block_body : ℕ → Read ClientBlock
read_block_body n = do
  client ← read_safe_var_uint
  start_clock ← read_safe_var_uint
  structs ← read_structs n client start_clock
  pure (record { client = client; start_clock = start_clock; structs = structs })

unfoldable pub read_block : Read ClientBlock
read_block = do
  n ← read_var_uint
  λ d. if ltb (remaining d) n then err unexpected_eof else read_block_body n d

unfoldable pub read_blocks : Read (List ClientBlock)
read_blocks = do
  n ← read_var_uint
  λ d. if ltb (remaining d) n then err unexpected_eof else read_times n read_block d

unfoldable pub read_update : Read Update
read_update = do
  clients ← read_blocks
  ds ← read_delete_set
  pure (record { clients = clients; deletes = some ds })

unfoldable pub decode_update : List ℕ → Result Update
decode_update b = whole corrupt_update (read_update b)

-- `clock += Clock(s.StructLen())` over the structs of a block.
unfoldable pub end_clock : ℕ → List Struct → ℕ
end_clock clock [] = clock
end_clock clock (s ∷ ss) = end_clock (u64 (clock + struct_len s)) ss

unfoldable pub note_block : StateVector → ClientBlock → StateVector
unfolding end_clock
note_block sv b =
    let clock = end_clock b.start_clock b.structs in
    if ltb (StateVector.get sv b.client) clock then GoMap.insert b.client clock sv else sv

-- Update.StateVector, from the vector noted so far.
unfoldable pub state_vector_from : StateVector → List ClientBlock → StateVector
unfolding note_block
state_vector_from sv [] = sv
state_vector_from sv (b ∷ bs) = state_vector_from (note_block sv b) bs

unfoldable pub state_vector : Update → StateVector
unfolding state_vector_from
state_vector u = state_vector_from [] u.clients
