-- ===== src/Protocol/Messages/RoundTrip.antt =====
-- Frames are read back as they were written, and nothing is accepted behind them.
use crdt_server.Base.{
  ℕ, ◌^◌, ◌<◌, ◌≡◌, refl, sym, ap, ◌∙◌, List, [], ◌∷◌, ◌++◌, append-nil, append_assoc, length,
  arith, ok, err, unknown_message_type, unknown_auth_type, unknown_sync_type, trailing_bytes,
}
use crdt_server.Lib0.Decoder.{◌>>=◌, feed, done, read_var_uint, read_var_uint8_array}
use crdt_server.Lib0.Encoder.{
  Encoder, new_encoder, write_var_uint, write_var_string, write_var_uint8_array,
}
use crdt_server.Lib0.Transfer.{
  Transfers, Transfers-weaken, Transfers-then, Transfers-bind, Transfers-map, whole,
}
use crdt_server.Lib0.VarUint.{var_uint-Transfers}
use crdt_server.Lib0.Bytes.{var_string-Transfers, var_uint8_array-Transfers}
use crdt_server.Protocol.Messages.{
  Message, sync_step1, sync_step2, update, awareness, permission_denied, query_awareness, sync_of,
  decode_sync, auth_of, message_of, read_message, decode, sync_frame, write_sync_step1,
  write_sync_step2, write_update, write_awareness, write_query_awareness, write_permission_denied,
}

-- The bytes that the server writes for a message.
unfoldable pub frame : Message → List ℕ
frame (sync_step1 sv) = write_sync_step1 sv
frame (sync_step2 u) = write_sync_step2 u
frame (update u) = write_update u
frame (awareness p) = write_awareness p
frame query_awareness = write_query_awareness
frame (permission_denied r) = write_permission_denied r

abbrev pub payload_of : Message → List ℕ
payload_of (sync_step1 sv) = sv
payload_of (sync_step2 u) = u
payload_of (update u) = u
payload_of (awareness p) = p
payload_of query_awareness = []
payload_of (permission_denied r) = r

-- The writer behind the bytes.
write_frame : Message → Encoder → Encoder
unfolding sync_frame
write_frame (sync_step1 sv) e = sync_frame 0 sv e
write_frame (sync_step2 u) e = sync_frame 1 u e
write_frame (update u) e = sync_frame 2 u e
write_frame (awareness p) e = write_var_uint8_array p (write_var_uint 1 e)
write_frame query_awareness e = write_var_uint 3 e
write_frame (permission_denied r) e = write_var_string r (write_var_uint 0 (write_var_uint 2 e))

frame-write_frame : (m : Message) → frame m ≡ (write_frame m new_encoder).buf
unfolding frame write_frame write_sync_step1 write_sync_step2 write_update write_awareness
    write_query_awareness write_permission_denied
frame-write_frame (sync_step1 sv) = refl
frame-write_frame (sync_step2 u) = refl
frame-write_frame (update u) = refl
frame-write_frame (awareness p) = refl
frame-write_frame query_awareness = refl
frame-write_frame (permission_denied r) = refl

sync-Transfers :
    (sub : ℕ) (payload : List ℕ) (m : Message)
    → sub < 3
    → length payload < 2 ^ 53
    → ((d : List ℕ) → sync_of sub payload d ≡ ok (m, d))
    → Transfers (sync_frame sub payload) read_message m 1
unfolding sync_frame read_message
sync-Transfers sub payload m hs h e = Transfers-weaken (omega arith) (
    Transfers-bind message_of (var_uint-Transfers 0 (omega arith)) (
      Transfers-bind (λ sub. read_var_uint8_array >>= sync_of sub)
        (var_uint-Transfers sub (omega arith))
        (Transfers-then (sync_of sub) e (var_uint8_array-Transfers payload h))))

frame-Transfers :
    (m : Message) → length (payload_of m) < 2 ^ 53 → Transfers (write_frame m) read_message m 1
unfolding write_frame read_message
frame-Transfers (sync_step1 sv) h = sync-Transfers 0 sv _ (omega arith) h (λ d. refl)
frame-Transfers (sync_step2 u) h = sync-Transfers 1 u _ (omega arith) h (λ d. refl)
frame-Transfers (update u) h = sync-Transfers 2 u _ (omega arith) h (λ d. refl)
frame-Transfers (awareness p) h = Transfers-weaken (omega arith) (
    Transfers-bind message_of (var_uint-Transfers 1 (omega arith))
      (Transfers-map awareness (var_uint8_array-Transfers p h)))
frame-Transfers query_awareness h =
    Transfers-then message_of (λ d. refl) (var_uint-Transfers 3 (omega arith))
frame-Transfers (permission_denied r) h = Transfers-weaken (omega arith) (
    Transfers-bind message_of (var_uint-Transfers 2 (omega arith)) (
      Transfers-bind auth_of (var_uint-Transfers 0 (omega arith))
        (Transfers-map permission_denied (var_string-Transfers r h))))

-- A frame whose payload's length lib0 can represent decodes to its message; with anything behind
-- it, it is refused for its trailing bytes.
pub decode-frame :
    (m : Message)
    → length (payload_of m) < 2 ^ 53
    → (decode (frame m) ≡ ok m)
      × ((b : ℕ) (rest : List ℕ) → decode (frame m ++ (b ∷ rest)) ≡ err trailing_bytes)
unfolding decode done
decode-frame m h =
    let t = frame-Transfers m h in
    let e = frame-write_frame m ∙ ap (λ (x : Encoder). x.buf) (t.writes []) in
    (
      ap (λ x. whole trailing_bytes (read_message x)) (e ∙ sym (append-nil t.bytes))
          ∙ ap (whole trailing_bytes) (t.reads []),
      λ b rest.
          ap (λ x. whole trailing_bytes (read_message (x ++ (b ∷ rest)))) e
          ∙ ap (whole trailing_bytes) (t.reads (b ∷ rest)),
    )

-- Reading a number and then the end of a transferred sequence.
unknown_lem :
    (n : ℕ) (rest : List ℕ)
    → n < 2 ^ 53
    → 3 < n
    → decode ((write_var_uint n new_encoder).buf ++ rest) ≡ err (unknown_message_type n)
unfolding decode read_message message_of
unknown_lem n rest h h3 =
    let t = var_uint-Transfers n h in
    ap (λ (x : Encoder). whole trailing_bytes (read_message (x.buf ++ rest))) (t.writes [])
    ∙ ap (λ x. whole trailing_bytes (feed message_of x)) (t.reads rest)
    ∙ ground arith

unknown_auth_lem :
    (n : ℕ) (rest : List ℕ)
    → n < 2 ^ 53
    → 0 < n
    → decode ((write_var_uint n (write_var_uint 2 new_encoder)).buf ++ rest)
      ≡ err (unknown_auth_type n)
unfolding decode read_message message_of auth_of
unknown_auth_lem n rest h h0 =
    let s = var_uint-Transfers 2 (omega arith) in
    let t = var_uint-Transfers n h in
    ap (λ (x : Encoder). whole trailing_bytes (read_message (x.buf ++ rest)))
      (ap (write_var_uint n) (s.writes []) ∙ t.writes s.bytes)
    ∙ ap (λ x. whole trailing_bytes (read_message x)) (append_assoc s.bytes t.bytes rest)
    ∙ ap (λ x. whole trailing_bytes (feed message_of x)) (s.reads (t.bytes ++ rest))
    ∙ ap (λ x. whole trailing_bytes (feed auth_of x)) (t.reads rest)
    ∙ ground arith

unknown_sub_lem :
    (n : ℕ) (bytes payload rest : List ℕ)
    → 2 < n
    → read_var_uint bytes ≡ ok (n, rest)
    → read_var_uint8_array rest ≡ ok (payload, [])
    → decode_sync bytes ≡ err (unknown_sync_type n)
unfolding decode_sync sync_of
unknown_sub_lem n bytes payload rest h e k =
    ap (feed (λ m. read_var_uint8_array >>= sync_of m)) e ∙ ap (feed (sync_of n)) k ∙ ground arith

unknown_sync_lem :
    (n : ℕ) (payload : List ℕ)
    → n < 2 ^ 53
    → 2 < n
    → length payload < 2 ^ 53
    → decode (sync_frame n payload new_encoder).buf ≡ err (unknown_sync_type n)
unfolding decode read_message message_of sync_frame
unknown_sync_lem n payload h h2 hp =
    let s = var_uint-Transfers 0 (omega arith) in
    let u = var_uint-Transfers n h in
    let v = var_uint8_array-Transfers payload hp in
    ap (λ (x : Encoder). whole trailing_bytes (read_message x.buf))
      (ap (λ x. write_var_uint8_array payload (write_var_uint n x)) (s.writes [])
        ∙ ap (write_var_uint8_array payload) (u.writes s.bytes)
        ∙ v.writes (s.bytes ++ u.bytes))
    ∙ ap (λ x. whole trailing_bytes (read_message x)) (append_assoc s.bytes u.bytes v.bytes)
    ∙ ap (λ x. whole trailing_bytes (feed message_of x)) (s.reads (u.bytes ++ v.bytes))
    ∙ ap (whole trailing_bytes) (
        unknown_sub_lem n (u.bytes ++ v.bytes) payload v.bytes h2 (u.reads v.bytes)
          (ap read_var_uint8_array (sym (append-nil v.bytes)) ∙ v.reads []))

-- A frame of a type that the protocol does not define is refused with that type in the error,
-- whatever follows it, and so is an auth message of an undefined sub-type; a sync message of an
-- undefined sub-type is refused once its payload is read.
pub decode-unknown :
    (n : ℕ) (rest : List ℕ)
    → n < 2 ^ 53
    → (3 < n → decode ((write_var_uint n new_encoder).buf ++ rest) ≡ err (unknown_message_type n))
      × (0 < n
          → decode ((write_var_uint n (write_var_uint 2 new_encoder)).buf ++ rest)
            ≡ err (unknown_auth_type n))
      × ((payload : List ℕ)
          → 2 < n
          → length payload < 2 ^ 53
          → decode (sync_frame n payload new_encoder).buf ≡ err (unknown_sync_type n))
decode-unknown n rest h =
    (unknown_lem n rest h, unknown_auth_lem n rest h, λ p. unknown_sync_lem n p h)
