-- ===== src/Lib0/Float.antt =====
-- The conversions of Go's float64 and float32 that any.go uses, on IEEE 754 bit patterns. An
-- int64 is given by its bit pattern too.
pub mod Exact
use crdt_server.Base.{
  ℕ, zero, suc, ◌+◌, ◌-◌, ◌*◌, ◌/◌, ◌%◌, ◌^◌, Bool, true, false, ◌&&◌, ◌||◌, not, ltb, leb, ◌==◌,
  if◌then◌else◌, is_negative, sub_u64,
}

abbrev pub sign_of : ℕ → ℕ
sign_of v = v / 2 ^ 63

abbrev pub exponent_of : ℕ → ℕ
exponent_of v = v / 2 ^ 52 % 2048

abbrev pub fraction_of : ℕ → ℕ
fraction_of v = v % 2 ^ 52

unfoldable pub is_nan : ℕ → Bool
is_nan v = exponent_of v == 2047 && not (fraction_of v == 0)

-- `v == 0`, of either sign.
unfoldable pub is_zero : ℕ → Bool
is_zero v = exponent_of v == 0 && fraction_of v == 0

-- `v == math.Trunc(v) && math.Abs(v) <= maxInt31`
unfoldable pub is_int31 : ℕ → Bool
unfolding is_zero
is_int31 v =
    is_zero v
    || (leb 1023 (exponent_of v)
        && leb (exponent_of v) 1053
        && fraction_of v % 2 ^ (1075 - exponent_of v) == 0)

-- `int64(v)` of an integral value.
unfoldable pub to_int64 : ℕ → ℕ
unfolding is_zero
to_int64 v =
    let m = (2 ^ 52 + fraction_of v) / 2 ^ (1075 - exponent_of v) in
    if is_zero v then 0 else if sign_of v == 1 then sub_u64 0 m else m

-- `float64(float32(v)) == v`
unfoldable pub is_float32 : ℕ → Bool
unfolding is_zero
is_float32 v =
    is_zero v
    || (exponent_of v == 2047 && fraction_of v == 0)
    || (leb 897 (exponent_of v) && leb (exponent_of v) 1150 && fraction_of v % 2 ^ 29 == 0)
    || (leb 874 (exponent_of v)
        && leb (exponent_of v) 896
        && (2 ^ 52 + fraction_of v) % 2 ^ (926 - exponent_of v) == 0)

-- `math.Float32bits(float32(v))` where `is_float32 v`.
unfoldable pub float32_bits : ℕ → ℕ
unfolding is_zero
float32_bits v =
    sign_of v * 2 ^ 31
    + (if is_zero v
        then 0
        else if exponent_of v == 2047
        then 255 * 2 ^ 23
        else if leb 897 (exponent_of v)
        then (exponent_of v - 896) * 2 ^ 23 + fraction_of v / 2 ^ 29
        else (2 ^ 52 + fraction_of v) / 2 ^ (926 - exponent_of v))

-- The place of the highest bit of a number below 2 ^ rounds.
unfoldable pub top_bit : ℕ → ℕ → ℕ
top_bit zero m = 0
top_bit (suc rounds) m = let k = top_bit rounds (m / 2) in if ltb m 2 then 0 else suc k

-- A positive integer below 2 ^ 64 as a float64, rounded to nearest, ties to even.
unfoldable pub of_magnitude : ℕ → ℕ
of_magnitude m =
    let k = top_bit 64 m in
    let s = k - 52 in
    let q = m / 2 ^ s in
    let r = m % 2 ^ s in
    let half = 2 ^ (s - 1) in
    let up = ltb half r || (r == half && q % 2 == 1) in
    if leb k 52
    then (k + 1023) * 2 ^ 52 + (m * 2 ^ (52 - k) - 2 ^ 52)
    else (k + 1023) * 2 ^ 52 + (q - 2 ^ 52) + (if up then 1 else 0)

-- `float64(t)` of an unsigned and of a signed integer.
unfoldable pub of_uint64 : ℕ → ℕ
of_uint64 t = if t == 0 then 0 else of_magnitude t

unfoldable pub of_int64 : ℕ → ℕ
unfolding of_uint64
of_int64 t = if is_negative t then 2 ^ 63 + of_magnitude (sub_u64 0 t) else of_uint64 t
