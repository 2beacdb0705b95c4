-- ===== src/Cluster/Envelope.antt =====
-- internal/cluster/envelope.go: one message between replicas.
pub mod RoundTrip
pub mod Relay
use crdt_server.Base.{
  ℕ, List, ◌==◌, ltb, if◌then◌else◌, Result, err, unknown_version, origin_out_of_range,
  unknown_kind, trailing_bytes,
}
use crdt_server.Lib0.{max_safe_integer}
use crdt_server.Lib0.Decoder
use crdt_server.Lib0.Decoder.{Read, ◌>>=◌, pure, read_var_uint, read_var_uint8_array}
use crdt_server.Lib0.Encoder.{Encoder, new_encoder, write_var_uint, write_var_uint8_array}
use crdt_server.Lib0.Transfer.{finish, whole}

-- The kinds are numbers: 0 an update, 1 an awareness update, 2 a state vector.
pub record Envelope : Type 0 where
  pub origin : ℕ
  pub kind : ℕ
  pub payload : List ℕ

abbrev pub envelope_version : ℕ
envelope_version = 0

unfoldable pub write_envelope : Envelope → Encoder → Encoder
write_envelope e enc =
    write_var_uint8_array e.payload
      (write_var_uint e.kind (write_var_uint e.origin (write_var_uint envelope_version enc)))

unfoldable pub encode : Envelope → Result (List ℕ)
unfolding write_envelope
encode e = finish (write_envelope e new_encoder)

unfoldable pub read_payload : ℕ → ℕ → Read Envelope
read_payload origin kind = do
  payload ← read_var_uint8_array
  pure (record { origin = origin; kind = kind; payload = payload })

-- The switch on the kind.
unfoldable pub read_of_kind : ℕ → ℕ → Read Envelope
unfolding read_payload
read_of_kind origin kind =
    if kind == 0
    then read_payload origin kind
    else if kind == 1
    then read_payload origin kind
    else if kind == 2
    then read_payload origin kind
    else Decoder.fail unknown_kind

unfoldable pub read_from_origin : ℕ → Read Envelope
unfolding read_of_kind
read_from_origin origin =
    if ltb max_safe_integer origin
    then Decoder.fail origin_out_of_range
    else (do kind ← read_var_uint; read_of_kind origin kind)

unfoldable pub read_of_version : ℕ → Read Envelope
unfolding read_from_origin
read_of_version version =
    if version == envelope_version
    then (do origin ← read_var_uint; read_from_origin origin)
    else Decoder.fail unknown_version

unfoldable pub read_envelope : Read Envelope
unfolding read_of_version
read_envelope = do version ← read_var_uint; read_of_version version

unfoldable pub decode : List ℕ → Result Envelope
unfolding read_envelope
decode buf = whole trailing_bytes (read_envelope buf)
