-- ===== src/Crdt/StateVector.antt =====
-- internal/crdt/statevector.go
use crdt_server.Base.{ℕ, ◌^◌, ◌<◌, ◌≡◌, List, length, All, All-map, Result, corrupt_update}
use crdt_server.Base.GoMap
use crdt_server.Base.GoMap.{GoMap, keys}
use crdt_server.Lib0.Decoder.{Read}
use crdt_server.Lib0.Encoder.{Encoder, new_encoder, write_var_uint}
use crdt_server.Lib0.Transfer.{Transfers, Transfers-whole, Returns, finish, whole}
use crdt_server.Crdt.{read_safe_var_uint, safe_var_uint-Transfers}
use crdt_server.Crdt.ClientMap.{
  write_section, read_section, read_back, lookup-read_back, section-Transfers,
}

abbrev pub StateVector : Type 0
StateVector = GoMap ℕ

-- An absent client and a client at clock 0 are the same thing.
unfoldable pub get : StateVector → ℕ → ℕ
get sv client = GoMap.get 0 client sv

unfoldable pub write_state_vector : StateVector → Encoder → Encoder
write_state_vector sv = write_section 0 write_var_uint sv

unfoldable pub read_state_vector : Read StateVector
read_state_vector = read_section read_safe_var_uint

unfoldable pub encode_state_vector : StateVector → Result (List ℕ)
encode_state_vector sv = finish (write_state_vector sv new_encoder)

unfoldable pub decode_state_vector : List ℕ → Result StateVector
decode_state_vector b = whole corrupt_update (read_state_vector b)

-- A clock and a client id that lib0 can represent, for each client.
abbrev pub IsEncodable : StateVector → Type 0
IsEncodable sv = All (λ c. (c < 2 ^ 53) × (get sv c < 2 ^ 53)) (keys sv) × (length sv < 2 ^ 53)

state_vector-Transfers :
    (sv : StateVector)
    → IsEncodable sv
    → Transfers
        (write_state_vector sv)
        read_state_vector
        (read_back 0 write_var_uint read_safe_var_uint sv)
        1
unfolding write_state_vector read_state_vector get
state_vector-Transfers sv (h, n) =
    section-Transfers 0 write_var_uint read_safe_var_uint sv
      (All-map (keys sv) (λ c p. (p.0, safe_var_uint-Transfers (GoMap.get 0 c sv) p.1)) h) n

-- A state vector whose ids and clocks lib0 can represent is encoded without an error, and what is
-- decoded from the bytes maps every client to the clock that it had, and no other client to one.
pub decode-encode_state_vector :
    (sv : StateVector)
    → IsEncodable sv
    → (back : StateVector) × Returns (encode_state_vector sv) decode_state_vector back
      × ((c : ℕ) → GoMap.lookup c back ≡ GoMap.lookup c sv)
unfolding encode_state_vector decode_state_vector
decode-encode_state_vector sv h = (
  read_back 0 write_var_uint read_safe_var_uint sv,
  Transfers-whole corrupt_update (state_vector-Transfers sv h),
  lookup-read_back 0 write_var_uint read_safe_var_uint sv,
)
