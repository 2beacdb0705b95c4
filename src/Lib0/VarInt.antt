-- ===== src/Lib0/VarInt.antt =====
-- WriteVarInt of encoder.go against ReadVarInt of decoder.go.
use native.Mathlib.Nat.{mod-eq_of_lt}
use native.Mathlib.Decide.{dec_lt}
use crdt_server.Base.{
  ℕ, zero, suc, ◌+◌, ◌-◌, ◌*◌, ◌/◌, ◌%◌, ◌^◌, ◌<◌, ◌≡◌, ◌⊎◌, inl, inr, refl, ◌∙◌, ap, Bool, true,
  false, List, [], ◌∷◌, ◌++◌, append_assoc, ltb, le→ltb, lt→ltb, ok, arith, if◌then◌else◌, has_bit,
}
use crdt_server.Lib0.Decoder.{var_int_loop, read_var_int, signed}
use crdt_server.Lib0.Encoder.{write_magnitude, write_var_int}
use crdt_server.Lib0.Transfer.{Transfers, holding}
use crdt_server.Lib0.VarUint.{groups, one_group, more_groups, split_scaled, scale_fits}

write_magnitude-groups :
    (k m : ℕ) (b : List ℕ) → 0 < m → m < 128 ^ suc k → write_magnitude (suc k) m b ≡ b ++ groups k m
unfolding write_magnitude
write_magnitude-groups zero m b h hm =
    let low : m % 128 + 0 ≡ m = omega arith in
    rw (lt→ltb 0 m h, le→ltb m 127 (omega arith), low, one_group zero m (omega arith))
write_magnitude-groups (suc k) m b h hm = elim (dec_lt 0x7F m) [
  | yes big ↦
      let top : m % 128 + 128 ≡ 128 + m % 128 = omega arith in
      rw (
        lt→ltb 0 m h,
        lt→ltb 127 m big,
        more_groups k m big,
        top,
        write_magnitude-groups k (m / 128) (b ++ ((128 + m % 128) ∷ [])) (omega arith)
            (omega arith),
        append_assoc,
      )
  | no small ↦
      let low : m % 128 + 0 ≡ m = omega arith in
      let gone : m / 128 ≡ 0 = omega arith in
      rw (lt→ltb 0 m h, le→ltb m 127 (omega arith), low, gone, one_group (suc k) m (omega arith))
]

-- One round of the loop on a last byte, and on a byte with the continuation bit.
last_byte :
    (negative : Bool) (w num mult : ℕ) (rest : List ℕ)
    → w < 128
    → num + w * mult < 2 ^ 64
    → var_int_loop negative num mult (w ∷ rest) ≡ ok (signed negative (num + w * mult), rest)
unfolding var_int_loop
last_byte negative w num mult rest hw fits = rw (
  lt→ltb w 128 hw,
  mod-eq_of_lt {n = w} hw,
  mod-eq_of_lt {n = w * mult} {m = 2 ^ 64} (omega arith),
  mod-eq_of_lt fits,
)

inner_byte :
    (negative : Bool) (g num mult : ℕ) (rest : List ℕ)
    → g < 128
    → num + g * mult < 2 ^ 53
    → mult * 128 < 2 ^ 64
    → var_int_loop negative num mult ((0x80 + g) ∷ rest)
      ≡ var_int_loop negative (num + g * mult) (mult * 128) rest
unfolding var_int_loop
inner_byte negative g num mult rest hg hs hm =
    let low : (0x80 + g) % 128 ≡ g = omega arith in
    rw (
      le→ltb 128 (0x80 + g) (omega arith),
      low,
      mod-eq_of_lt {n = g * mult} {m = 2 ^ 64} (omega arith),
      mod-eq_of_lt {n = num + g * mult} {m = 2 ^ 64} (omega arith),
      mod-eq_of_lt hm,
      le→ltb (num + g * mult) (2 ^ 53 - 1) (omega arith),
      le→ltb (num + g * mult) (2 ^ 63 - 1) (omega arith),
    )

var_int_loop-groups :
    (k w num mult : ℕ) (negative : Bool) (rest : List ℕ)
    → w < 128 ^ suc k
    → num + w * mult < 2 ^ 53
    → var_int_loop negative num mult (groups k w ++ rest)
      ≡ ok (signed negative (num + w * mult), rest)
var_int_loop-groups zero w num mult negative rest hw fits =
    rw (one_group zero w (omega arith))
      (last_byte negative w num mult rest (omega arith) (omega arith))
var_int_loop-groups (suc k) w num mult negative rest hw fits = elim (dec_lt 0x7F w) [
  | yes h ↦ rw (more_groups k w h) (
      inner_byte negative (w % 128) num mult (groups k (w / 128) ++ rest) (omega arith)
        (omega (arith, split_scaled w mult)) (omega (arith, scale_fits w mult h))
      ∙ var_int_loop-groups k (w / 128) (num + w % 128 * mult) (mult * 128) negative rest
          (omega arith) (omega (arith, split_scaled w mult))
      ∙ ap (λ n. ok (signed negative n, rest)) (omega (arith, split_scaled w mult)))
  | no h ↦
      rw (one_group (suc k) w (omega arith))
        (last_byte negative w num mult rest (omega arith) (omega arith))
]

-- The byte with the sign, and the groups behind it.
first_byte : Bool → ℕ → ℕ
first_byte negative num =
    num % 64 + (if ltb 0x3F num then 0x80 else 0) + (if negative then 0x40 else 0)

magnitude : Bool → ℕ → List ℕ
magnitude negative num =
    first_byte negative num ∷ (if ltb 0x3F num then groups 8 (num / 64) else [])

write-magnitude :
    (negative : Bool) (num : ℕ) (b : List ℕ)
    → num < 2 ^ 53
    → write_magnitude 9 (num / 64) (b ++ (first_byte negative num ∷ []))
      ≡ b ++ magnitude negative num
unfolding magnitude
write-magnitude negative num b h = elim (dec_lt 0x3F num) [
  | yes big ↦ rw (
    lt→ltb 0x3F num big,
    write_magnitude-groups 8 (num / 64) (b ++ (first_byte negative num ∷ [])) (omega arith)
        (omega arith),
    append_assoc,
  )
  | no small ↦
      let gone : num / 64 ≡ 0 = omega arith in
      rw (le→ltb num 0x3F (omega arith), gone) (unfold write_magnitude in refl)
]

sign_bit : (negative : Bool) (num : ℕ) → has_bit (first_byte negative num) 6 ≡ negative
unfolding first_byte
sign_bit true num = ground arith
sign_bit false num = ground arith

more_bit : (negative : Bool) (num : ℕ) → has_bit (first_byte negative num) 7 ≡ ltb 0x3F num
unfolding first_byte
more_bit true num = ground arith
more_bit false num = ground arith

value_bits : (negative : Bool) (num : ℕ) → first_byte negative num % 64 ≡ num % 64
unfolding first_byte
value_bits true num = ground arith
value_bits false num = ground arith

read-magnitude :
    (negative : Bool) (num : ℕ) (rest : List ℕ)
    → num < 2 ^ 53
    → read_var_int (magnitude negative num ++ rest) ≡ ok (signed negative num, rest)
unfolding magnitude read_var_int
read-magnitude negative num rest h = elim (dec_lt 0x3F num) [
  | yes big ↦
      rw
        (more_bit negative num, sign_bit negative num, value_bits negative num, lt→ltb 0x3F num big)
        (var_int_loop-groups 8 (num / 64) (num % 64) 64 negative rest (omega arith) (omega arith)
          ∙ ap (λ n. ok (signed negative n, rest)) (omega arith))
  | no small ↦ rw (
    more_bit negative num,
    sign_bit negative num,
    value_bits negative num,
    le→ltb num 0x3F (omega arith),
    mod-eq_of_lt {n = num} {m = 64} (omega arith),
  )
]

-- An int64 of magnitude below 2^53, by its bit pattern.
abbrev pub IsSafeInt : ℕ → Type 0
IsSafeInt v = (v < 2 ^ 53) ⊎ ((2 ^ 64 - 2 ^ 53 < v) × (v < 2 ^ 64))

-- A signed number that lib0 can represent is read back as it was written.
pub var_int-Transfers : (v : ℕ) → IsSafeInt v → Transfers (write_var_int v) read_var_int v 1
unfolding write_var_int
var_int-Transfers v (inl h) = record {
  bytes = magnitude false v;
  writes = λ b.
      rw (le→ltb v (2 ^ 63 - 1) (omega arith), le→ltb v (2 ^ 53 - 1) (omega arith))
        (ap holding (unfold first_byte in write-magnitude false v b h));
  reads = λ rest. read-magnitude false v rest h;
  long = unfold magnitude in omega arith;
}
var_int-Transfers v (inr (lo, hi)) =
    let num = 2 ^ 64 - v in
    let neg : (0 + 2 ^ 64 - v) % 2 ^ 64 ≡ num = omega arith in
    let back : (0 + 2 ^ 64 - num) % 2 ^ 64 ≡ v = omega arith in
    record {
      bytes = magnitude true num;
      writes = λ b.
          rw
            (
              lt→ltb (2 ^ 63 - 1) v (omega arith),
              le→ltb (2 ^ 64 - (2 ^ 53 - 1)) v (omega arith),
              lt→ltb (2 ^ 53 - 1) v (omega arith),
              neg,
            )
            (ap holding (unfold first_byte in write-magnitude true num b (omega arith)));
      reads = λ rest. read-magnitude true num rest (omega arith) ∙ ap (λ n. ok (n, rest)) back;
      long = unfold magnitude in omega arith;
    }
