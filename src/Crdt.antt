-- ===== src/Crdt.antt =====
-- internal/crdt: the identifiers of id.go, and the length readers at the end of content.go.
pub mod ClientMap
pub mod StateVector
pub mod DeleteSet
pub mod Content
pub mod Struct
pub mod Update
pub mod Store
pub mod Doc
use crdt_server.Base.{
  ℕ, ◌+◌, ◌-◌, ◌^◌, ◌<◌, ◌≡◌, ltb, le→ltb, ◌==◌, if◌then◌else◌, integer_out_of_range,
  negative_length, err, ok, arith, Bool, ◌&&◌,
}
use crdt_server.Lib0.Decoder.{Read, ◌>>=◌, pure, read_var_uint}
use crdt_server.Lib0.Encoder.{Encoder, write_var_uint}
use crdt_server.Lib0.Transfer.{Transfers, Transfers-then, Transfers-bind, Transfers-map}
use crdt_server.Lib0.VarUint.{var_uint-Transfers}

-- One clock tick of one client.
pub record StructId : Type 0 where
  pub client : ℕ
  pub clock : ℕ

abbrev pub id_at : ℕ → ℕ → StructId
id_at client clock = record { client = client; clock = clock }

pub data Order : Type 0 where
  less equal greater : Order

-- ID.Compare; its results -1, 0 and 1 have names here.
unfoldable pub compare_id : StructId → StructId → Order
compare_id id other =
    if ltb id.client other.client
    then less
    else if ltb other.client id.client
    then greater
    else if ltb id.clock other.clock
    then less
    else if ltb other.clock id.clock
    then greater
    else equal

-- A number that will have to be written back out.
unfoldable pub read_safe_var_uint : Read ℕ
read_safe_var_uint = do
  n ← read_var_uint
  λ d. if ltb (2 ^ 53 - 1) n then err integer_out_of_range else ok (n, d)

abbrev pub max_len : ℕ
max_len = 2 ^ 31

unfoldable pub read_len : Read ℕ
read_len = do n ← read_var_uint; λ d. if ltb max_len n then err negative_length else ok (n, d)

unfoldable pub write_id : StructId → Encoder → Encoder
write_id id e = write_var_uint id.clock (write_var_uint id.client e)

unfoldable pub read_id : Read StructId
read_id = do client ← read_safe_var_uint; clock ← read_safe_var_uint; pure (id_at client clock)

pub safe_var_uint-Transfers :
    (v : ℕ) → v < 2 ^ 53 → Transfers (write_var_uint v) read_safe_var_uint v 1
unfolding read_safe_var_uint
safe_var_uint-Transfers v h =
    Transfers-then (λ n d. if ltb (2 ^ 53 - 1) n then err integer_out_of_range else ok (n, d))
      (λ d. rw (le→ltb v (2 ^ 53 - 1) (omega arith))) (var_uint-Transfers v h)

pub len-Transfers : (v : ℕ) → v < 2 ^ 31 + 1 → Transfers (write_var_uint v) read_len v 1
unfolding read_len
len-Transfers v h =
    Transfers-then (λ n d. if ltb max_len n then err negative_length else ok (n, d))
      (λ d. rw (le→ltb v (2 ^ 31) (omega arith))) (var_uint-Transfers v (omega arith))

-- The clocks and the client ids that lib0 can represent.
pub record IsSafeId (id : StructId) : Type 0 where
  pub client : id.client < 2 ^ 53
  pub clock : id.clock < 2 ^ 53

pub id-Transfers : (id : StructId) → IsSafeId id → Transfers (write_id id) read_id id 2
unfolding write_id read_id
id-Transfers id h =
    Transfers-bind (λ client. read_safe_var_uint >>= λ clock. pure (id_at client clock))
      (safe_var_uint-Transfers id.client h.client)
      (Transfers-map (id_at id.client) (safe_var_uint-Transfers id.clock h.clock))
