-- ===== src/Tests/Wire.antt =====
-- An update, an envelope and a frame that go over the wire and come back.
use crdt_server.Base.{
  is_positive, if◌then◌else◌, ◌+◌, ℕ, ◌^◌, ◌<◌, ◌≡◌, refl, List, [], ◌∷◌, none, some, false, arith,
  length, inl, ok, err, unknown_message_type, unknown_auth_type, unknown_sync_type, trailing_bytes,
  ◌++◌,
}
use crdt_server.Base.GoMap
use crdt_server.Lib0.Encoder.{new_encoder, write_var_uint}
use crdt_server.Lib0.Decoder.{read_var_uint, read_var_uint8_array, remaining, read_bytes, done}
use crdt_server.Lib0.Utf16.{utf16_length, count_units, decode_rune, units, split_utf16}
use crdt_server.Lib0.Utf16.Split.{split_utf16_lem}
use crdt_server.Crdt.Update.Vector.{latest, get-state_vector}
use crdt_server.Lib0.Transfer.{Returns, Transfers}
use crdt_server.Lib0.Any.{Any, Values, nil, cons, write_any, read_any}
use crdt_server.Lib0.Any
use crdt_server.Lib0.Any.RoundTrip.{write_any-Transfers}
use crdt_server.Crdt.{id_at}
use crdt_server.Crdt.Content.{string, content_len, string_from}
use crdt_server.Crdt.DeleteSet.{range, ranges_of}
use crdt_server.Crdt.Struct.{Item, item, gc, root, struct_id, struct_len, origin_at, no_neighbour}
use crdt_server.Crdt.Struct.RoundTrip.{parent_on_wire}
use crdt_server.Crdt.Update.{
  Update, state_vector, encode, decode_update, ordered, is_descending_by_client,
}
use crdt_server.Crdt.Update.RoundTrip.{received_deletes}
use crdt_server.Crdt.Update.RoundTrip
use crdt_server.Crdt.Update.Decoded.{IsDecoded, decode-encode_decoded}
use crdt_server.Crdt.StateVector
use crdt_server.Crdt.StateVector.{
  StateVector, encode_state_vector, decode_state_vector, decode-encode_state_vector,
}
use crdt_server.Protocol.Messages.{Message, update, decode, sync_frame}
use crdt_server.Protocol.Messages.RoundTrip.{frame, decode-frame, decode-unknown}
use crdt_server.Cluster.Envelope
use crdt_server.Cluster.Envelope.{Envelope}
use crdt_server.Cluster.Envelope.RoundTrip.{decode-encode_envelope}
use crdt_server.Cluster.Envelope.Relay.{encode-decode_envelope}

-- "hi", written by client 7 at clock 0 into the root type "t".
abbrev hello : Item
hello = record {
  id = id_at 7 0;
  origin = none;
  right_origin = none;
  parent = some (root (116 ∷ []));
  has_parent_sub = false;
  parent_sub = [];
  content = string (104 ∷ 105 ∷ []);
  parent_type = none;
}

-- A block of that item and two collected clocks behind it, and a deleted clock.
abbrev small_update : Update
small_update = record {
  clients =
      record { client = 7; start_clock = 0; structs = item hello ∷ gc (id_at 7 2) 2 ∷ [] } ∷ [];
  deletes = some ((7, range 1 1 ∷ []) ∷ []);
}

small_update-IsWritable : RoundTrip.IsWritable small_update
unfolding ordered is_descending_by_client struct_id origin_at parent_on_wire string_from ranges_of
    GoMap.get GoMap.lookup GoMap.keys
small_update-IsWritable = record {
  blocks = (
    record {
      client = omega arith;
      start_clock = omega arith;
      count = omega arith;
      structs = (
        record {
          origin = tt;
          right_origin = tt;
          parent = omega arith;
          parent_sub = omega arith;
          content = omega arith;
        },
        ((omega arith, omega arith), tt),
      );
    },
    tt,
  );
  count = omega arith;
  deletes = (((omega arith, ((omega arith, omega arith), tt), omega arith), tt), omega arith);
}

small_update-IsDecoded : IsDecoded small_update
unfolding is_descending_by_client struct_id struct_len no_neighbour content_len utf16_length
    count_units units decode_rune
small_update-IsDecoded = record {
  descending = refl;
  blocks = (
    (omega arith, (refl, record { unresolved = refl; parent = (refl, tt) }, (refl, tt, tt))),
    tt,
  );
}

decode-encode_decoded_example :
    Returns
      (encode small_update)
      decode_update
      (record small_update { deletes = some (received_deletes small_update.deletes) })
decode-encode_decoded_example =
    decode-encode_decoded small_update small_update-IsWritable small_update-IsDecoded

abbrev two_clients : StateVector
two_clients = (3, 200) ∷ (9, 4) ∷ []

two_clients-IsEncodable : StateVector.IsEncodable two_clients
unfolding StateVector.get GoMap.get GoMap.keys GoMap.lookup
two_clients-IsEncodable =
    (((omega arith, omega arith), ((omega arith, omega arith), tt)), omega arith)

decode-encode_state_vector_example :
    (back : StateVector) × Returns (encode_state_vector two_clients) decode_state_vector back
    × ((c : ℕ) → GoMap.lookup c back ≡ GoMap.lookup c two_clients)
decode-encode_state_vector_example = decode-encode_state_vector two_clients two_clients-IsEncodable

abbrev nested : Any
nested = Any.array (cons (Any.int64 5) (cons Any.null nil))

nested-IsCanonical : Any.RoundTrip.IsCanonical nested 129
unfolding Any.length_values
nested-IsCanonical =
    (omega arith, omega arith, ((omega arith, inl (omega arith)), (omega arith, tt)))

write_any-Transfers_example : Transfers (write_any nested) read_any nested 1
write_any-Transfers_example = write_any-Transfers nested nested-IsCanonical

abbrev one_update : Message
one_update = update (1 ∷ 2 ∷ [])

decode-frame_example :
    (decode (frame one_update) ≡ ok one_update)
    × ((b : ℕ) (rest : List ℕ) → decode (frame one_update ++ (b ∷ rest)) ≡ err trailing_bytes)
decode-frame_example = decode-frame one_update (omega arith)

decode-unknown_example :
    (3 < 5 → decode ((write_var_uint 5 new_encoder).buf ++ (9 ∷ [])) ≡ err (unknown_message_type 5))
    × (0 < 5
        → decode ((write_var_uint 5 (write_var_uint 2 new_encoder)).buf ++ (9 ∷ []))
          ≡ err (unknown_auth_type 5))
    × ((payload : List ℕ)
        → 2 < 5
        → length payload < 2 ^ 53
        → decode (sync_frame 5 payload new_encoder).buf ≡ err (unknown_sync_type 5))
decode-unknown_example = decode-unknown 5 (9 ∷ []) (omega arith)

abbrev from_replica : Envelope
from_replica = record { origin = 300; kind = 1; payload = 4 ∷ 5 ∷ [] }

decode-encode_envelope_example : Returns (Envelope.encode from_replica) Envelope.decode from_replica
decode-encode_envelope_example =
    decode-encode_envelope from_replica (omega arith, omega arith, omega arith)

-- The bytes of that envelope.
abbrev envelope_bytes : List ℕ
envelope_bytes = 0 ∷ 172 ∷ 2 ∷ 1 ∷ 2 ∷ 4 ∷ 5 ∷ []

envelope_bytes_read : Envelope.decode envelope_bytes ≡ ok from_replica
unfolding Envelope.decode read_var_uint read_var_uint8_array remaining read_bytes done
envelope_bytes_read = refl

encode-decode_envelope_example : Returns (Envelope.encode from_replica) Envelope.decode from_replica
encode-decode_envelope_example =
    encode-decode_envelope envelope_bytes from_replica (omega arith) envelope_bytes_read

-- "a", a rune of two code units, and "b".
abbrev with_emoji : List ℕ
with_emoji = 97 ∷ 240 ∷ 159 ∷ 152 ∷ 128 ∷ 98 ∷ []

abbrev before_b : List ℕ
before_b = 97 ∷ 240 ∷ 159 ∷ 152 ∷ 128 ∷ []

with_emoji_split : split_utf16 with_emoji 3 ≡ some (before_b, 98 ∷ [])
unfolding split_utf16 units decode_rune
with_emoji_split = refl

split_utf16_lem_example :
    (before_b ++ (98 ∷ []) ≡ with_emoji)
    × (utf16_length with_emoji ≡ (if is_positive 3 then 3 else 0) + utf16_length (98 ∷ []))
split_utf16_lem_example = split_utf16_lem with_emoji 3 before_b (98 ∷ []) with_emoji_split

get-state_vector_example :
    StateVector.get (state_vector small_update) 7 ≡ latest 7 small_update.clients
get-state_vector_example = get-state_vector small_update 7 (omega arith, tt)
