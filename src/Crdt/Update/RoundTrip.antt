-- ===== src/Crdt/Update/RoundTrip.antt =====
-- An update is read back as it was written.
use native.Mathlib.Nat.{le_refl}
use crdt_server.Base.{
  ℕ, ◌+◌, ◌^◌, ◌<◌, List, [], ◌∷◌, Option, none, some, ltb, length, All, arith, if◌then◌else◌, u64,
  sub_u64, err, unexpected_eof, corrupt_update,
}
use crdt_server.Lib0.Decoder.{◌>>=◌, pure, remaining}
use crdt_server.Lib0.Transfer.{
  Transfers, Transfers-pure, Transfers-weaken, Transfers-bind, Transfers-map, Transfers-bounded,
  Transfers-whole, Returns, read_times, write_each,
}
use crdt_server.Lib0.VarUint.{var_uint-Transfers}
use crdt_server.Crdt.{id_at, read_safe_var_uint, safe_var_uint-Transfers}
use crdt_server.Crdt.DeleteSet.{DeleteSet, read_delete_set}
use crdt_server.Crdt.DeleteSet.Codec
use crdt_server.Crdt.DeleteSet.Codec.{reread, delete_set-Transfers}
use crdt_server.Crdt.Struct.{Struct, struct_id, struct_len, write_struct}
use crdt_server.Crdt.Struct.RoundTrip.{received, struct-Transfers}
use crdt_server.Crdt.Struct.RoundTrip
use crdt_server.Crdt.Update.{
  ClientBlock, Update, ordered, write_structs, write_block, write_deletes, write_update, encode,
  read_structs, read_block_body, read_block, read_blocks, read_update, decode_update,
}

-- The structs of a block as a receiver decodes them: the first less its offset, and each in the
-- place where the one before it ends.
unfoldable pub received_structs : ℕ → ℕ → ℕ → List Struct → List Struct
received_structs client clock offset [] = []
received_structs client clock offset (s ∷ ss) =
    let t = received (id_at client clock) offset s in
    t ∷ received_structs client (u64 (clock + struct_len t)) 0 ss

-- How far into the first struct a block starts.
abbrev pub first_offset : ℕ → List Struct → ℕ
first_offset start_clock [] = 0
first_offset start_clock (s ∷ ss) = sub_u64 start_clock (struct_id s).clock

unfoldable pub received_block : ClientBlock → ClientBlock
received_block b = record b {
  structs =
      received_structs b.client b.start_clock (first_offset b.start_clock b.structs) b.structs;
}

abbrev IsWritableFrom : ℕ → List Struct → Type 0
IsWritableFrom offset [] = Unit {0}
IsWritableFrom offset (s ∷ ss) = RoundTrip.IsWritable offset s × All (RoundTrip.IsWritable 0) ss

pub record IsWritableBlock (b : ClientBlock) : Type 0 where
  pub client : b.client < 2 ^ 53
  pub start_clock : b.start_clock < 2 ^ 53
  pub count : length b.structs < 2 ^ 53
  pub structs : IsWritableFrom (first_offset b.start_clock b.structs) b.structs

whole_structs_transfer :
    (ss : List Struct) (client clock : ℕ)
    → All (RoundTrip.IsWritable 0) ss
    → Transfers
        (write_each (λ t. write_struct t 0) ss)
        (read_structs (length ss) client clock)
        (received_structs client clock 0 ss)
        (length ss)
unfolding write_each read_structs received_structs
whole_structs_transfer [] client clock h = Transfers-pure []
whole_structs_transfer (s ∷ ss) client clock (h, hs) =
    let t = received (id_at client clock) 0 s in
    Transfers-weaken (omega arith) (
      Transfers-bind
        (λ s. read_structs (length ss) client (u64 (clock + struct_len s)) >>= λ ss. pure (s ∷ ss))
        (struct-Transfers s 0 client clock h)
        (Transfers-map (λ ss. t ∷ ss)
          (whole_structs_transfer ss client (u64 (clock + struct_len t)) hs)))

structs_transfer :
    (ss : List Struct) (client clock : ℕ)
    → IsWritableFrom (first_offset clock ss) ss
    → Transfers
        (write_structs clock ss)
        (read_structs (length ss) client clock)
        (received_structs client clock (first_offset clock ss) ss)
        (length ss)
unfolding write_structs read_structs received_structs
structs_transfer [] client clock h = Transfers-pure []
structs_transfer (s ∷ ss) client clock (h, hs) =
    let offset = sub_u64 clock (struct_id s).clock in
    let t = received (id_at client clock) offset s in
    Transfers-weaken (omega arith) (
      Transfers-bind
        (λ s. read_structs (length ss) client (u64 (clock + struct_len s)) >>= λ ss. pure (s ∷ ss))
        (struct-Transfers s offset client clock h)
        (Transfers-map (λ ss. t ∷ ss)
          (whole_structs_transfer ss client (u64 (clock + struct_len t)) hs)))

block-Transfers :
    (b : ClientBlock)
    → IsWritableBlock b
    → Transfers (write_block b) read_block (received_block b) 1
unfolding write_block read_block read_block_body received_block
block-Transfers b h =
    let n = length b.structs in
    Transfers-weaken (omega arith) (
      Transfers-bind
        (λ n d. if ltb (remaining d) n then err unexpected_eof else read_block_body n d)
        (var_uint-Transfers n h.count)
        (Transfers-bounded n unexpected_eof (omega arith) (
          Transfers-bind
            (λ client. read_safe_var_uint >>= λ start_clock.
              read_structs n client start_clock >>= λ structs.
              pure (record { client = client; start_clock = start_clock; structs = structs }))
            (safe_var_uint-Transfers b.client h.client)
            (Transfers-bind
              (λ start_clock. read_structs n b.client start_clock >>= λ structs.
                pure (record { client = b.client; start_clock = start_clock; structs = structs }))
              (safe_var_uint-Transfers b.start_clock h.start_clock)
              (Transfers-map (λ structs. record b { structs = structs })
                (structs_transfer b.structs b.client b.start_clock h.structs))))))

unfoldable pub received_blocks : List ClientBlock → List ClientBlock
received_blocks [] = []
received_blocks (b ∷ bs) = received_block b ∷ received_blocks bs

blocks_transfer :
    (bs : List ClientBlock)
    → All IsWritableBlock bs
    → Transfers
        (write_each write_block bs)
        (read_times (length bs) read_block)
        (received_blocks bs)
        (length bs)
unfolding write_each read_times received_blocks
blocks_transfer [] h = Transfers-pure []
blocks_transfer (b ∷ bs) (h, hs) = Transfers-weaken (omega arith) (
    Transfers-bind (λ b. read_times (length bs) read_block >>= λ bs. pure (b ∷ bs))
      (block-Transfers b h) (Transfers-map (λ bs. received_block b ∷ bs) (blocks_transfer bs hs)))

-- The delete set that is on the wire: an empty one where the update has none.
abbrev pub received_deletes : Option DeleteSet → DeleteSet
received_deletes none = []
received_deletes (some ds) = reread ds

abbrev IsWritableDeletes : Option DeleteSet → Type 0
IsWritableDeletes none = Unit {0}
IsWritableDeletes (some ds) = Codec.IsEncodable ds

deletes_transfer :
    (o : Option DeleteSet)
    → IsWritableDeletes o
    → Transfers (write_deletes o) read_delete_set (received_deletes o) 1
unfolding write_deletes
deletes_transfer none h = Codec.empty-Transfers
deletes_transfer (some ds) h = delete_set-Transfers ds h

-- The update as a receiver decodes it.
unfoldable pub received_update : Update → Update
unfolding received_blocks
received_update u = record {
  clients = received_blocks (ordered u.clients);
  deletes = some (received_deletes u.deletes);
}

-- Everything that the update writes is in the ranges that the format has room for.
pub record IsWritable (u : Update) : Type 0 where
  pub blocks : All IsWritableBlock (ordered u.clients)
  pub count : length (ordered u.clients) < 2 ^ 53
  pub deletes : IsWritableDeletes u.deletes

update-Transfers :
    (u : Update) → IsWritable u → Transfers (write_update u) read_update (received_update u) 1
unfolding write_update read_update read_blocks received_update
update-Transfers u h =
    let blocks = ordered u.clients in
    Transfers-weaken (omega arith) (
      Transfers-bind
        (λ clients.
          read_delete_set >>= λ ds. pure (record { clients = clients; deletes = some ds }))
        (Transfers-bind
          (λ n d. if ltb (remaining d) n then err unexpected_eof else read_times n read_block d)
          (var_uint-Transfers (length blocks) h.count)
          (Transfers-bounded (length blocks) unexpected_eof (le_refl (length blocks))
            (blocks_transfer blocks h.blocks)))
        (Transfers-map (λ ds. record { clients = received_blocks blocks; deletes = some ds })
          (deletes_transfer u.deletes h.deletes)))

-- What the bytes of a writable update decode to, with nothing left over.
pub encode-Returns :
    (u : Update) → IsWritable u → Returns (encode u) decode_update (received_update u)
unfolding encode decode_update
encode-Returns u h = Transfers-whole corrupt_update (update-Transfers u h)
