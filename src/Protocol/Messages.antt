-- ===== src/Protocol/Messages.antt =====
-- internal/protocol/messages.go: one frame is one message.
pub mod RoundTrip
use crdt_server.Base.{
  ℕ, List, [], ◌==◌, if◌then◌else◌, Result, err, unknown_message_type, unknown_sync_type,
  unknown_auth_type, trailing_bytes,
}
use crdt_server.Lib0.Decoder
use crdt_server.Lib0.Decoder.{
  Read, ◌>>=◌, pure, read_var_uint, read_var_string, read_var_uint8_array,
}
use crdt_server.Lib0.Encoder.{
  Encoder, new_encoder, write_var_uint, write_var_string, write_var_uint8_array,
}
use crdt_server.Lib0.Transfer.{whole}

pub data Message : Type 0 where
  sync_step1 sync_step2 update awareness permission_denied : List ℕ → Message
  query_awareness : Message

-- The payload is read before the sub-type is looked at.
unfoldable pub sync_of : ℕ → List ℕ → Read Message
sync_of sub payload =
    if sub == 0
    then pure (sync_step1 payload)
    else if sub == 1
    then pure (sync_step2 payload)
    else if sub == 2
    then pure (update payload)
    else Decoder.fail (unknown_sync_type sub)

unfoldable pub decode_sync : Read Message
unfolding sync_of
decode_sync = do sub ← read_var_uint; payload ← read_var_uint8_array; sync_of sub payload

unfoldable pub auth_of : ℕ → Read Message
auth_of sub =
    if sub == 0
    then (do reason ← read_var_string; pure (permission_denied reason))
    else Decoder.fail (unknown_auth_type sub)

unfoldable pub decode_auth : Read Message
unfolding auth_of
decode_auth = do sub ← read_var_uint; auth_of sub

-- The switch of Decode.
unfoldable pub message_of : ℕ → Read Message
unfolding decode_sync decode_auth
message_of typ =
    if typ == 0
    then decode_sync
    else if typ == 1
    then (do payload ← read_var_uint8_array; pure (awareness payload))
    else if typ == 3
    then pure query_awareness
    else if typ == 2
    then decode_auth
    else Decoder.fail (unknown_message_type typ)

unfoldable pub read_message : Read Message
unfolding message_of
read_message = do typ ← read_var_uint; message_of typ

unfoldable pub decode : List ℕ → Result Message
unfolding read_message
decode buf = whole trailing_bytes (read_message buf)

-- The writers return the bytes and do not look at the encoder's error.
unfoldable pub sync_frame : ℕ → List ℕ → Encoder → Encoder
sync_frame sub payload e = write_var_uint8_array payload (write_var_uint sub (write_var_uint 0 e))

unfoldable pub write_sync : ℕ → List ℕ → List ℕ
unfolding sync_frame
write_sync sub payload = (sync_frame sub payload new_encoder).buf

unfoldable pub write_sync_step1 : List ℕ → List ℕ
unfolding write_sync
write_sync_step1 state_vector = write_sync 0 state_vector

unfoldable pub write_sync_step2 : List ℕ → List ℕ
unfolding write_sync
write_sync_step2 u = write_sync 1 u

unfoldable pub write_update : List ℕ → List ℕ
unfolding write_sync
write_update u = write_sync 2 u

unfoldable pub write_awareness : List ℕ → List ℕ
write_awareness payload = (write_var_uint8_array payload (write_var_uint 1 new_encoder)).buf

unfoldable pub write_query_awareness : List ℕ
write_query_awareness = (write_var_uint 3 new_encoder).buf

unfoldable pub write_permission_denied : List ℕ → List ℕ
write_permission_denied reason =
    (write_var_string reason (write_var_uint 0 (write_var_uint 2 new_encoder))).buf
