-- ===== src/Cluster/Envelope/RoundTrip.antt =====
-- What a replica encodes is what another decodes, and what it decodes it can encode again.
use crdt_server.Base.{◌^◌, ◌<◌, length, arith, trailing_bytes}
use crdt_server.Lib0.Transfer.{
  Transfers, Transfers-weaken, Transfers-bind, Transfers-map, Transfers-reader, Transfers-whole,
  Returns,
}
use crdt_server.Lib0.VarUint.{var_uint-Transfers}
use crdt_server.Lib0.Bytes.{var_uint8_array-Transfers}
use crdt_server.Cluster.Envelope.{
  Envelope, write_envelope, encode, read_payload, read_of_kind, read_from_origin, read_of_version,
  read_envelope, decode,
}

-- Everything in the envelope has a place in the format.
abbrev pub IsSendable : Envelope → Type 0
IsSendable e = (e.origin < 2 ^ 53) × (e.kind < 3) × (length e.payload < 2 ^ 53)

envelope-Transfers : (e : Envelope) → IsSendable e → Transfers (write_envelope e) read_envelope e 1
unfolding write_envelope read_envelope read_of_version read_from_origin read_of_kind read_payload
envelope-Transfers e (ho, hk, hp) = Transfers-weaken (omega arith) (
    Transfers-bind read_of_version (var_uint-Transfers 0 (omega arith)) (
      Transfers-bind read_from_origin (var_uint-Transfers e.origin ho) (
        Transfers-reader (λ d. ground arith)
          (Transfers-bind (read_of_kind e.origin) (var_uint-Transfers e.kind (omega arith)) (
            Transfers-reader (λ d. ground arith)
              (Transfers-map (λ p. record { origin = e.origin; kind = e.kind; payload = p })
                (var_uint8_array-Transfers e.payload hp)))))))

-- An envelope of a known kind, from an origin and with a payload length that lib0 can represent,
-- is encoded without an error and decoded from the bytes.
pub decode-encode_envelope : (e : Envelope) → IsSendable e → Returns (encode e) decode e
unfolding encode decode
decode-encode_envelope e h = Transfers-whole trailing_bytes (envelope-Transfers e h)
