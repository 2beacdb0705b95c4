-- ===== src/Lib0/Float/Exact.antt =====
-- Small integers survive the conversion to float64 and back.
use native.Mathlib.Nat.{
  pow-suc, pow-le-pow_right, one-le-pow, mul-div_cancel, mul-mod_left, mul-add-mod_self_right,
  mul-le-mul_right, mul-lt-mul_of_pos_right,
}
use native.Mathlib.Decide.{dec_lt}
use crdt_server.Base.{
  ◌&&◌, ℕ, zero, suc, ◌+◌, ◌-◌, ◌*◌, ◌/◌, ◌%◌, ◌^◌, ◌≤◌, ◌<◌, ◌≡◌, ◌⊎◌, inl, inr, refl, sym, ap,
  ◌∙◌, Bool, true, false, leb, ◌==◌, arith, lt→ltb, le→ltb, if◌then◌else◌, sub_u64,
}
use crdt_server.Lib0.Float.{
  sign_of, exponent_of, fraction_of, is_zero, is_int31, to_int64, top_bit, of_magnitude, of_uint64,
  of_int64,
}

top_bit_bounds :
    (rounds m : ℕ)
    → 0 < m
    → m < 2 ^ rounds
    → (2 ^ top_bit rounds m ≤ m) × (m < 2 * 2 ^ top_bit rounds m)
unfolding top_bit
top_bit_bounds zero m h hm = absurd (omega arith)
top_bit_bounds (suc rounds) m h hm = elim (dec_lt m 2) [
  | yes small ↦ rw (lt→ltb m 2 small) (omega arith, omega arith)
  | no big ↦
      let (lo, hi) =
        top_bit_bounds rounds (m / 2) (omega arith) (omega (arith, pow-suc 2 rounds)) in
      let twice = pow-suc 2 (top_bit rounds (m / 2)) in
      rw (le→ltb 2 m (omega arith)) (omega (arith, twice), omega (arith, twice))
]

-- Powers of two over the exponents that a small integer meets.
lt→leb : (a b : ℕ) → a < b → leb a b ≡ true
lt→leb a b h = ground arith

scale_table : (n : ℕ) → Bool
scale_table zero = true
scale_table (suc n) = if 2 ^ n * 2 ^ (52 - n) == 2 ^ 52 then scale_table n else false

scale_table-at : (n k : ℕ) → scale_table n ≡ true → k < n → 2 ^ k * 2 ^ (52 - k) ≡ 2 ^ 52
unfolding scale_table
scale_table-at zero k e h = absurd (omega arith)
scale_table-at (suc n) k e h = ground (arith, scale_table-at n k)

scale_eq : (k : ℕ) → k < 31 → 2 ^ k * 2 ^ (52 - k) ≡ 2 ^ 52
unfolding scale_table
scale_eq k h = scale_table-at 31 k refl h

-- The shape of a small positive integer as a float64.
record IsScaled (m v : ℕ) : Type 0 where
  k : ℕ
  fraction : ℕ
  small : k ≤ 30
  below : fraction < 2 ^ 52
  shape : v ≡ (k + 1023) * 2 ^ 52 + fraction
  exact : 2 ^ 52 + fraction ≡ m * 2 ^ (52 - k)

small_exponent : (k m : ℕ) → 2 ^ k ≤ m → m < 2 ^ 31 → k < 31
small_exponent k m lo hm = elim (dec_lt k 31) [
  | yes h ↦ h
  | no h ↦
      absurd (omega (arith, pow-le-pow_right {n = 2} (omega arith) {i = 31} {j = k} (omega arith)))
]

module _ (k m : ℕ) (lo : 2 ^ k ≤ m) (hi : m < 2 * 2 ^ k) (small : k < 31) where
  scaled_lo : 2 ^ 52 ≤ m * 2 ^ (52 - k)
  scaled_lo = omega (arith, scale_eq k small, mul-le-mul_right (2 ^ (52 - k)) lo)

  scaled_hi : m * 2 ^ (52 - k) < 2 * 2 ^ 52
  scaled_hi =
      let room : 0 < 2 ^ (52 - k) = one-le-pow (52 - k) 2 (omega arith) in
      omega (
        arith,
        ap (λ (t : ℕ). 2 * t) (scale_eq k small),
        mul-lt-mul_of_pos_right {m = m} {n = 2 * 2 ^ k} hi room,
      )

of_magnitude-IsScaled : (m : ℕ) → 0 < m → m < 2 ^ 31 → IsScaled m (of_magnitude m)
unfolding of_magnitude
of_magnitude-IsScaled m h hm =
    let (lo, hi) = top_bit_bounds 64 m h (omega arith) in
    let small = small_exponent (top_bit 64 m) m lo hm in
    let from_below = scaled_lo (top_bit 64 m) m lo hi small in
    let from_above = scaled_hi (top_bit 64 m) m lo hi small in
    record {
      k = top_bit 64 m;
      fraction = m * 2 ^ (52 - top_bit 64 m) - 2 ^ 52;
      small = omega arith;
      below = omega arith;
      shape = rw (lt→leb (top_bit 64 m) 52 (omega arith));
      exact = omega arith;
    }

scaled_parts :
    (m v : ℕ) (s : IsScaled m v) (sign : ℕ)
    → sign < 2
    → (sign_of (sign * 2 ^ 63 + v) ≡ sign)
      × (exponent_of (sign * 2 ^ 63 + v) ≡ s.k + 1023)
      × (fraction_of (sign * 2 ^ 63 + v) ≡ s.fraction)
scaled_parts m v s sign h =
    let shape = s.shape in
    let below = s.below in let small = s.small in (omega arith, omega arith, omega arith)

multiple : (p a m f : ℕ) → a * p + f ≡ m * p → f % p ≡ 0
multiple p a m f e = sym (mul-add-mod_self_right a p f) ∙ ap (λ (t : ℕ). t % p) e ∙ mul-mod_left m p

-- A float64 of that shape, with either sign, is integral, and its value is `m`.
module _ (m v : ℕ) (s : IsScaled m v) (sign : ℕ) (h : sign < 2) where
  power : 1075 - (s.k + 1023) ≡ 52 - s.k
  power = omega (arith, s.small)

  IsScaled-is_int31 : is_int31 (sign * 2 ^ 63 + v) ≡ true
  unfolding is_int31
  IsScaled-is_int31 =
      let (_, e, f) = scaled_parts m v s sign h in
      let small = s.small in
      let power' = scale_eq s.k (omega arith) in
      let whole : s.fraction % 2 ^ (52 - s.k) ≡ 0 =
        multiple (2 ^ (52 - s.k)) (2 ^ s.k) m s.fraction (omega (arith, s.exact)) in
      rw (e, f, power, whole) (ground arith)

  IsScaled-to_int64 : to_int64 (sign * 2 ^ 63 + v) ≡ (if sign == 1 then sub_u64 0 m else m)
  unfolding to_int64
  IsScaled-to_int64 =
      let (g, e, f) = scaled_parts m v s sign h in
      let small = s.small in
      let room : 0 < 2 ^ (52 - s.k) = one-le-pow (52 - s.k) 2 (omega arith) in
      rw (e, f, g, power, s.exact, mul-div_cancel m room) (ground arith)

  IsScaled-is_zero : is_zero (sign * 2 ^ 63 + v) ≡ false
  unfolding is_zero
  IsScaled-is_zero = let (_, e, _) = scaled_parts m v s sign h in rw e (ground arith)

-- An int64 of magnitude below 2^31, by its bit pattern.
abbrev pub IsInt31 : ℕ → Type 0
IsInt31 t = (t < 2 ^ 31) ⊎ ((2 ^ 64 - 2 ^ 31 < t) × (t < 2 ^ 64))

of_int64-eq_pos : (t : ℕ) → 0 < t → t < 2 ^ 31 → of_int64 t ≡ 0 * 2 ^ 63 + of_magnitude t
unfolding of_int64 of_uint64
of_int64-eq_pos t h hm = ground arith

of_int64-eq_neg :
    (t : ℕ) → 2 ^ 64 - 2 ^ 31 < t → t < 2 ^ 64 → of_int64 t ≡ 1 * 2 ^ 63 + of_magnitude (2 ^ 64 - t)
unfolding of_int64
of_int64-eq_neg t h hm =
    let small : (0 + 2 ^ 64 - t) % 2 ^ 64 ≡ 2 ^ 64 - t = omega arith in
    rw (lt→ltb (2 ^ 63 - 1) t (omega arith), small)

-- A number below 2^31 in magnitude is integral as a float64, and is what converting back gives.
pub of_int64-exact :
    (t : ℕ) → IsInt31 t → (is_int31 (of_int64 t) ≡ true) × (to_int64 (of_int64 t) ≡ t)
of_int64-exact zero (inl h) = unfold of_int64 of_uint64 is_int31 to_int64 in (refl, refl)
of_int64-exact (suc n) (inl h) =
    let s = of_magnitude-IsScaled (suc n) (omega arith) h in
    rw (of_int64-eq_pos (suc n) (omega arith) h)
      (IsScaled-is_int31 _ _ s 0 (omega arith), IsScaled-to_int64 _ _ s 0 (omega arith))
of_int64-exact t (inr (lo, hi)) =
    let s = of_magnitude-IsScaled (2 ^ 64 - t) (omega arith) (omega arith) in
    let back : (0 + 2 ^ 64 - (2 ^ 64 - t)) % 2 ^ 64 ≡ t = omega arith in
    rw (of_int64-eq_neg t lo hi)
      (IsScaled-is_int31 _ _ s 1 (omega arith), IsScaled-to_int64 _ _ s 1 (omega arith) ∙ back)

-- It is never the negative zero.
pub of_int64-ne-neg_zero :
    (t : ℕ) → IsInt31 t → (is_zero (of_int64 t) && sign_of (of_int64 t) == 1) ≡ false
of_int64-ne-neg_zero zero (inl h) = unfold of_int64 of_uint64 is_zero in refl
of_int64-ne-neg_zero (suc n) (inl h) =
    let s = of_magnitude-IsScaled (suc n) (omega arith) h in
    rw (of_int64-eq_pos (suc n) (omega arith) h, IsScaled-is_zero _ _ s 0 (omega arith))
of_int64-ne-neg_zero t (inr (lo, hi)) =
    let s = of_magnitude-IsScaled (2 ^ 64 - t) (omega arith) (omega arith) in
    rw (of_int64-eq_neg t lo hi, IsScaled-is_zero _ _ s 1 (omega arith))
