-- ===== src/Lib0/Any.antt =====
-- internal/crdt/lib0/any.go: the any values and their codec. A string is its bytes, an int64 and
-- a BigInt are 64-bit patterns, a float is its IEEE 754 bit pattern. `depth` counts the levels of
-- nesting from the outside, as in the source.
pub mod RoundTrip
use crdt_server.Base.{
  Option, none, some, list_same, ℕ, zero, suc, ◌+◌, ◌-◌, ◌*◌, ◌/◌, ◌%◌, ◌^◌, List, [], ◌∷◌, ◌++◌,
  Bool, true, false, ◌&&◌, ltb, ◌==◌, length, if◌then◌else◌, depth_exceeded, unsupported_type,
  unexpected_eof, unknown_any_tag, err,
}
use crdt_server.Lib0.Decoder.{
  Read, ◌>>=◌, pure, remaining, read_uint8, read_bytes, read_var_int, read_var_uint,
  read_var_string, read_var_uint8_array,
}
use crdt_server.Lib0.Decoder
use crdt_server.Lib0.Encoder.{
  Encoder, fail, unless_failed, write_uint8, write_bytes, write_var_uint, write_var_int,
  write_var_string, write_var_uint8_array,
}
use crdt_server.Lib0.Transfer.{write_each}
use crdt_server.Lib0.Float.{
  is_nan, is_zero, is_int31, is_float32, float32_bits, to_int64, of_int64, of_uint64, sign_of,
}

-- The dynamic types that WriteAny tells apart. `map` is a Go map, in any order; the signed and
-- the unsigned integer types share a constructor each.
mutual
  pub data Any : Type 0 where
    undefined null unsupported : Any
    boolean : Bool → Any
    string uint8_array : List ℕ → Any
    big_int int64 uint64 float32 float64 : ℕ → Any
    array : Values → Any
    object map : Fields → Any

  pub data Values : Type 0 where
    nil : Values
    cons : Any → Values → Values

  pub data Fields : Type 0 where
    end : Fields
    field : List ℕ → Any → Fields → Fields

unfoldable pub length_values : Values → ℕ
length_values nil = 0
length_values (cons x xs) = suc (length_values xs)

unfoldable pub length_fields : Fields → ℕ
length_fields end = 0
length_fields (field k v fs) = suc (length_fields fs)

-- `binary.BigEndian.PutUint32` and `PutUint64`: `n` bytes, the highest first.
unfoldable pub big_endian : ℕ → ℕ → List ℕ
big_endian zero v = []
big_endian (suc n) v = big_endian n (v / 256) ++ ((v % 256) ∷ [])

-- `binary.BigEndian.Uint32` and `Uint64`.
unfoldable pub from_big_endian : ℕ → List ℕ → ℕ
from_big_endian acc [] = acc
from_big_endian acc (b ∷ bs) = from_big_endian (acc * 256 + b) bs

unfoldable pub write_number : ℕ → Encoder → Encoder
write_number v e =
    if is_int31 v
    then (if is_zero v && sign_of v == 1
        then write_uint8 0x40 (write_uint8 125 e)
        else write_var_int (to_int64 v) (write_uint8 125 e))
    else if is_float32 v
    then write_bytes (big_endian 4 (float32_bits v)) (write_uint8 124 e)
    else write_bytes (big_endian 8 (if is_nan v then 0x7FF8000000000000 else v)) (write_uint8 123 e)

abbrev pub KeyedWriter : Type 0
KeyedWriter = record { key : List ℕ; write : Encoder → Encoder }

unfoldable pub write_keyed : KeyedWriter → Encoder → Encoder
write_keyed w e = w.write (write_var_string w.key e)

-- Object.Get
unfoldable pub get_field : List ℕ → Fields → Option Any
get_field key end = none
get_field key (field k v fs) =
    let rest = get_field key fs in if list_same k key then some v else rest

-- Object.Set
unfoldable pub set_field : List ℕ → Any → Fields → Fields
set_field key v end = field key v end
set_field key v (field k w fs) =
    let rest = set_field key v fs in if list_same k key then field k v fs else field k w rest

-- writeFields, given the writer of each value.
unfoldable pub write_fields : List KeyedWriter → Encoder → Encoder
unfolding write_keyed
write_fields ws e = write_each write_keyed ws (write_var_uint (length ws) (write_uint8 118 e))

-- `a < b` on Go strings.
unfoldable pub string_less : List ℕ → List ℕ → Bool
string_less a [] = false
string_less [] (y ∷ b) = true
string_less (x ∷ a) (y ∷ b) = let rest = string_less a b in if x == y then rest else ltb x y

insert_key : KeyedWriter → List KeyedWriter → List KeyedWriter
insert_key w [] = w ∷ []
insert_key w (v ∷ vs) =
    let rest = insert_key w vs in if string_less v.key w.key then v ∷ rest else w ∷ v ∷ vs

-- `sort.Strings(keys)`; the keys of a map are distinct.
unfoldable pub sort_keys : List KeyedWriter → List KeyedWriter
unfolding insert_key
sort_keys [] = []
sort_keys (w ∷ ws) = insert_key w (sort_keys ws)

-- What writeAny does before it looks at the value.
unfoldable pub enter : ℕ → (Encoder → Encoder) → Encoder → Encoder
enter depth w e = unless_failed e (if ltb 128 depth then fail depth_exceeded e else w e)

unfoldable mutual
  pub write_any_at : Any → ℕ → Encoder → Encoder
  write_any_at null depth = enter depth (write_uint8 126)
  write_any_at undefined depth = enter depth (write_uint8 127)
  write_any_at (boolean b) depth = enter depth (write_uint8 (if b then 120 else 121))
  write_any_at (string s) depth = enter depth (λ e. write_var_string s (write_uint8 119 e))
  write_any_at (big_int t) depth =
      enter depth (λ e. write_bytes (big_endian 8 t) (write_uint8 122 e))
  write_any_at (uint8_array b) depth =
      enter depth (λ e. write_var_uint8_array b (write_uint8 116 e))
  write_any_at (array xs) depth =
      enter depth
        (λ e. write_values xs (suc depth) (write_var_uint (length_values xs) (write_uint8 117 e)))
  write_any_at (object fs) depth = enter depth (write_fields (field_writers fs (suc depth)))
  write_any_at (map fs) depth =
      enter depth (write_fields (sort_keys (field_writers fs (suc depth))))
  write_any_at (float32 t) depth =
      enter depth (λ e. write_bytes (big_endian 4 t) (write_uint8 124 e))
  write_any_at (float64 t) depth = enter depth (write_number t)
  write_any_at (int64 t) depth = enter depth (write_number (of_int64 t))
  write_any_at (uint64 t) depth = enter depth (write_number (of_uint64 t))
  write_any_at unsupported depth = enter depth (fail unsupported_type)

  pub write_values : Values → ℕ → Encoder → Encoder
  write_values nil depth e = e
  write_values (cons x xs) depth e = write_values xs depth (write_any_at x depth e)

  pub field_writers : Fields → ℕ → List KeyedWriter
  field_writers end depth = []
  field_writers (field k v fs) depth =
      record { key = k; write = write_any_at v depth } ∷ field_writers fs depth

unfoldable pub write_any : Any → Encoder → Encoder
write_any v = write_any_at v 0

-- `for range n { … }` of an array and of an object.
unfoldable pub read_values : ℕ → Read Any → Read Values
read_values zero r = pure nil
read_values (suc n) r = do x ← r; xs ← read_values n r; pure (cons x xs)

unfoldable pub read_fields : ℕ → Read Any → Read Fields
read_fields zero r = pure end
read_fields (suc n) r = do k ← read_var_string; v ← r; fs ← read_fields n r; pure (field k v fs)

-- The switch of readAny; `r` reads the values one level further in.
unfoldable pub read_tagged : Read Any → ℕ → Read Any
read_tagged r tag =
    if tag == 127
    then pure undefined
    else if tag == 126
    then pure null
    else if tag == 125
    then (do v ← read_var_int; pure (int64 v))
    else if tag == 124
    then (do b ← read_bytes 4; pure (float32 (from_big_endian 0 b)))
    else if tag == 123
    then (do b ← read_bytes 8; pure (float64 (from_big_endian 0 b)))
    else if tag == 122
    then (do b ← read_bytes 8; pure (big_int (from_big_endian 0 b)))
    else if tag == 121
    then pure (boolean false)
    else if tag == 120
    then pure (boolean true)
    else if tag == 119
    then (do s ← read_var_string; pure (string s))
    else if tag == 118
    then (do
      n ← read_var_uint
      fs ← λ d. if ltb (remaining d) n then err unexpected_eof else read_fields n r d
      pure (object fs))
    else if tag == 117
    then (do
      n ← read_var_uint
      xs ← λ d. if ltb (remaining d) n then err unexpected_eof else read_values n r d
      pure (array xs))
    else if tag == 116
    then (do b ← read_var_uint8_array; pure (uint8_array b))
    else Decoder.fail unknown_any_tag

-- readAny at `depth`, where `levels` is 129 - depth: with none left the depth is exceeded.
unfoldable pub read_any_at : ℕ → Read Any
read_any_at zero = Decoder.fail depth_exceeded
read_any_at (suc levels) = do tag ← read_uint8; read_tagged (read_any_at levels) tag

unfoldable pub read_any : Read Any
read_any = read_any_at 129
