-- ===== src/Lib0/Bytes.antt =====
-- The length-prefixed byte arrays and strings, and raw bytes, of encoder.go and decoder.go.
use native.Mathlib.Nat.{le_refl}
use crdt_server.Base.{
  err, unexpected_eof, if◌then◌else◌, ℕ, ◌^◌, ◌<◌, refl, List, [], ◌∷◌, ◌++◌, ltb, le→ltb, length,
  length-append, take-length-append, drop-length-append, arith,
}
use crdt_server.Lib0.Decoder.{
  read_uint8, read_bytes, read_var_uint8_array, read_var_string, remaining,
}
use crdt_server.Lib0.Encoder.{write_uint8, write_bytes, write_var_uint8_array, write_var_string}
use crdt_server.Lib0.Transfer.{
  Transfers, Transfers-weaken, Transfers-bind, Transfers-bounded, Transfers-unless_failed,
}
use crdt_server.Lib0.VarUint.{var_uint-Transfers}

pub uint8-Transfers : (b : ℕ) → Transfers (write_uint8 b) read_uint8 b 1
unfolding write_uint8 read_uint8
uint8-Transfers b = record {
  bytes = b ∷ [];
  writes = λ c. refl;
  reads = λ rest. refl;
  long = omega arith;
}

pub bytes-Transfers : (b : List ℕ) → Transfers (write_bytes b) (read_bytes (length b)) b (length b)
unfolding write_bytes read_bytes
bytes-Transfers b = record {
  bytes = b;
  writes = λ c. refl;
  reads = λ rest. rw (
    le→ltb (length b) (length (b ++ rest)) (omega (arith, length-append b rest)),
    take-length-append b rest,
    drop-length-append b rest,
  );
  long = omega arith;
}

-- A byte array of a length that lib0 can represent is read back, and so is a string.
pub var_uint8_array-Transfers :
    (b : List ℕ) → length b < 2 ^ 53 → Transfers (write_var_uint8_array b) read_var_uint8_array b 1
unfolding write_var_uint8_array read_var_uint8_array
var_uint8_array-Transfers b h = Transfers-weaken (omega arith) (
    Transfers-unless_failed (
      Transfers-bind (λ n d. if ltb (remaining d) n then err unexpected_eof else read_bytes n d)
        (var_uint-Transfers (length b) h)
        (Transfers-bounded (length b) unexpected_eof (le_refl (length b)) (bytes-Transfers b))))

pub var_string-Transfers :
    (s : List ℕ) → length s < 2 ^ 53 → Transfers (write_var_string s) read_var_string s 1
unfolding write_var_string write_var_uint8_array read_var_string
var_string-Transfers s h = var_uint8_array-Transfers s h
