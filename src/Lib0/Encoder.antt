-- ===== src/Lib0/Encoder.antt =====
-- internal/crdt/lib0/encoder.go. A method takes the encoder and returns it as it is afterwards.
-- An int64 is given by its bit pattern, and a string by its bytes.
use crdt_server.Base.{
  ℕ, zero, suc, ◌+◌, ◌-◌, ◌%◌, ◌^◌, List, [], ◌∷◌, ◌++◌, Option, none, some, ◌&&◌, ltb, length,
  if◌then◌else◌, Error, integer_out_of_range, low_bits, shr, is_negative, sub_u64,
}

pub record Encoder : Type 0 where
  pub buf : List ℕ
  pub err : Option Error

abbrev pub new_encoder : Encoder
new_encoder = record { buf = []; err = none }

-- Only the first error is recorded.
unfoldable pub fail : Error → Encoder → Encoder
fail x e = elim e.err [ none ↦ record e { err = some x } | some _ ↦ e ]

-- A write that an earlier error turns into a no-op.
abbrev pub unless_failed : Encoder → Encoder → Encoder
unless_failed e e' = elim e.err [ none ↦ e' | some _ ↦ e ]

unfoldable pub write_bytes : List ℕ → Encoder → Encoder
write_bytes b e = unless_failed e (record e { buf = e.buf ++ b })

unfoldable pub write_uint8 : ℕ → Encoder → Encoder
write_uint8 b e = unless_failed e (record e { buf = e.buf ++ (b ∷ []) })

-- `for v > 0x7F { … v >>= 7 }` and the last byte. A round divides v by 128, so nine rounds are
-- enough for a uint64.
unfoldable pub write_groups : ℕ → ℕ → List ℕ → List ℕ
write_groups zero v buf = buf ++ ((v % 256) ∷ [])
write_groups (suc rounds) v buf =
    let more = write_groups rounds (shr v 7) (buf ++ ((0x80 + low_bits v 7) ∷ [])) in
    if ltb 0x7F v then more else buf ++ ((v % 256) ∷ [])

unfoldable pub write_var_uint : ℕ → Encoder → Encoder
unfolding fail write_groups
write_var_uint v e =
    let written = record e { buf = write_groups 9 v e.buf } in
    unless_failed e (if ltb (2 ^ 53 - 1) v then fail integer_out_of_range e else written)

-- `for num > 0 { … num >>= 7 }`
unfoldable pub write_magnitude : ℕ → ℕ → List ℕ → List ℕ
write_magnitude zero num buf = buf
write_magnitude (suc rounds) num buf =
    let b = low_bits num 7 + (if ltb 0x7F num then 0x80 else 0) in
    let more = write_magnitude rounds (shr num 7) (buf ++ (b ∷ [])) in
    if ltb 0 num then more else buf

unfoldable pub write_var_int : ℕ → Encoder → Encoder
unfolding fail write_magnitude
write_var_int v e =
    let negative = is_negative v in
    let num = if negative then sub_u64 0 v else v in
    let first =
      low_bits num 6 + (if ltb 0x3F num then 0x80 else 0) + (if negative then 0x40 else 0) in
    let written = record e { buf = write_magnitude 9 (shr num 6) (e.buf ++ (first ∷ [])) } in
    unless_failed e (
      if ltb (2 ^ 53 - 1) v && ltb v (2 ^ 64 - (2 ^ 53 - 1))
      then fail integer_out_of_range e
      else written)

unfoldable pub write_var_uint8_array : List ℕ → Encoder → Encoder
write_var_uint8_array b e = unless_failed e (write_bytes b (write_var_uint (length b) e))

unfoldable pub write_var_string : List ℕ → Encoder → Encoder
write_var_string s e = unless_failed e (write_bytes s (write_var_uint (length s) e))
