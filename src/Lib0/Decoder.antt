-- ===== src/Lib0/Decoder.antt =====
-- internal/crdt/lib0/decoder.go. A `Decoder` is the part of its buffer that is not read yet,
-- buf[pos:]. A method takes it and returns its value with what is then unread, or an error; no
-- caller reads on after an error. An int64 is given by its bit pattern.
use crdt_server.Base.{
  ℕ, ◌+◌, ◌-◌, ◌*◌, ◌^◌, List, [], ◌∷◌, Bool, ◌&&◌, ltb, not, length, take, drop, if◌then◌else◌,
  Error, unexpected_eof, integer_out_of_range, Result, ok, err, u64, low_bits, has_bit, is_negative,
  sub_u64,
}

abbrev pub Decoder : Type 0
Decoder = List ℕ

abbrev pub Read {ℓ} : Type ℓ → Type ℓ
Read A = Decoder → Result (A × Decoder)

abbrev pub feed {ℓ κ} :
    {A : Type ℓ} {B : Type κ} → (A → Read B) → Result (A × Decoder) → Result (B × Decoder)
feed f (ok (a, rest)) = f a rest
feed f (err e) = err e

-- A call, and what follows it unless it returns an error.
infixl 5 ◌>>=◌ ◌>>◌
abbrev pub ◌>>=◌ {ℓ κ} :
    {First : Type ℓ} {Second : Type κ} → Read First → (First → Read Second) → Read Second
◌>>=◌ r f d = feed f (r d)

abbrev pub ◌>>◌ {ℓ κ} : {First : Type ℓ} {Second : Type κ} → Read First → Read Second → Read Second
◌>>◌ r k = r >>= λ _. k

abbrev pub pure {ℓ} : {A : Type ℓ} → A → Read A
pure a d = ok (a, d)

abbrev pub fail {ℓ} : {A : Type ℓ} → Error → Read A
fail e d = err e

unfoldable pub remaining : Decoder → ℕ
remaining d = length d

unfoldable pub done : Decoder → Bool
done d = elim d [ [] ↦ Bool.true | _ ∷ _ ↦ Bool.false ]

unfoldable pub read_uint8 : Read ℕ
read_uint8 [] = err unexpected_eof
read_uint8 (b ∷ rest) = ok (b, rest)

unfoldable pub read_bytes : ℕ → Read (List ℕ)
unfolding remaining
read_bytes n d = if ltb (remaining d) n then err unexpected_eof else ok (take n d, drop n d)

unfoldable pub var_uint_loop : ℕ → ℕ → Read ℕ
var_uint_loop num mult [] = err unexpected_eof
var_uint_loop num mult (r ∷ rest) =
    let num' = u64 (num + u64 (low_bits r 7 * mult)) in
    let more = var_uint_loop num' (u64 (mult * 128)) rest in
    if ltb r 0x80
    then ok (num', rest)
    else if ltb (2 ^ 53 - 1) num'
    then err integer_out_of_range
    else more

unfoldable pub read_var_uint : Read ℕ
unfolding var_uint_loop
read_var_uint = var_uint_loop 0 1

-- `sign * num`
abbrev pub signed : Bool → ℕ → ℕ
signed negative num = if negative then sub_u64 0 num else num

-- The loop of ReadVarInt. The comparison with MaxSafeInteger is of signed numbers.
unfoldable pub var_int_loop : Bool → ℕ → ℕ → Read ℕ
var_int_loop negative num mult [] = err unexpected_eof
var_int_loop negative num mult (r ∷ rest) =
    let num' = u64 (num + u64 (low_bits r 7 * mult)) in
    let more = var_int_loop negative num' (u64 (mult * 128)) rest in
    if ltb r 0x80
    then ok (signed negative num', rest)
    else if not (is_negative num') && ltb (2 ^ 53 - 1) num'
    then err integer_out_of_range
    else more

unfoldable pub read_var_int : Read ℕ
unfolding var_int_loop
read_var_int [] = err unexpected_eof
read_var_int (r ∷ rest) =
    let num = low_bits r 6 in
    let negative = has_bit r 6 in
    let more = var_int_loop negative num 64 rest in
    if has_bit r 7 then more else ok (signed negative num, rest)

unfoldable pub read_var_uint8_array : Read (List ℕ)
read_var_uint8_array = do
  n ← read_var_uint
  λ d. if ltb (remaining d) n then err unexpected_eof else read_bytes n d

-- A Go string is its bytes.
unfoldable pub read_var_string : Read (List ℕ)
read_var_string = read_var_uint8_array
