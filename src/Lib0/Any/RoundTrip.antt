-- ===== src/Lib0/Any/RoundTrip.antt =====
-- WriteAny against ReadAny.
use mathlib.Core.Path.{fun_ext, subst}
use native.Mathlib.Nat.{le_refl, pow-suc}
use crdt_server.Base.{
  ℕ, zero, suc, ◌+◌, ◌-◌, ◌*◌, ◌/◌, ◌%◌, ◌^◌, ◌≤◌, ◌<◌, ◌≡◌, refl, sym, ap, inl, inr, List, [], ◌∷◌,
  ◌++◌, Bool, true, false, ltb, le→ltb, length, length-append, unexpected_eof, arith, if◌then◌else◌,
  err,
}
use crdt_server.Lib0.Decoder.{Read, ◌>>=◌, pure, remaining, read_bytes, read_var_uint}
use crdt_server.Lib0.Encoder.{Encoder, write_uint8, write_bytes, write_var_int, write_var_uint}
use crdt_server.Lib0.Transfer.{
  Transfers, Transfers-pure, Transfers-weaken, Transfers-map, Transfers-bind, Transfers-bounded,
  write_each,
}
use crdt_server.Lib0.VarUint.{var_uint-Transfers}
use crdt_server.Lib0.VarInt.{var_int-Transfers, IsSafeInt}
use crdt_server.Lib0.Bytes.{
  uint8-Transfers, bytes-Transfers, var_string-Transfers, var_uint8_array-Transfers,
}
use crdt_server.Lib0.Float.{is_nan, is_int31, is_float32}
use crdt_server.Lib0.Float.Exact.{IsInt31, of_int64-exact, of_int64-ne-neg_zero}
use crdt_server.Lib0.Float
use crdt_server.Lib0.Any.{
  Any, Values, Fields, undefined, null, unsupported, boolean, string, uint8_array, big_int, int64,
  uint64, float32, float64, array, object, map, nil, cons, end, field, length_values, length_fields,
  big_endian, from_big_endian, write_number, write_keyed, write_fields, enter, write_any_at,
  write_values, field_writers, write_any, read_values, read_fields, read_tagged, read_any_at,
  read_any,
}

-- The values that come back as they were, `levels` levels of nesting allowed: those that a
-- decoder gives for what a JavaScript client writes. A float64 is one that neither an integer
-- nor a float32 stands for, and there is one NaN.
abbrev mutual
  pub IsCanonical : Any → ℕ → Type 0
  IsCanonical undefined l = 0 < l
  IsCanonical null l = 0 < l
  IsCanonical unsupported l = ⊥
  IsCanonical (boolean b) l = 0 < l
  IsCanonical (string s) l = (0 < l) × (length s < 2 ^ 53)
  IsCanonical (uint8_array b) l = (0 < l) × (length b < 2 ^ 53)
  IsCanonical (big_int t) l = (0 < l) × (t < 2 ^ 64)
  IsCanonical (int64 t) l = (0 < l) × IsInt31 t
  IsCanonical (uint64 t) l = ⊥
  IsCanonical (float32 t) l = (0 < l) × (t < 2 ^ 32)
  IsCanonical (float64 t) l =
      (0 < l)
      × (t < 2 ^ 64)
      × (is_int31 t ≡ false)
      × (is_float32 t ≡ false)
      × (if is_nan t then t ≡ 0x7FF8000000000000 else Unit {0})
  IsCanonical (array xs) l = (0 < l) × (length_values xs < 2 ^ 53) × IsCanonicalValues xs (l - 1)
  IsCanonical (object fs) l = (0 < l) × (length_fields fs < 2 ^ 53) × IsCanonicalFields fs (l - 1)
  IsCanonical (map fs) l = ⊥

  pub IsCanonicalValues : Values → ℕ → Type 0
  IsCanonicalValues nil l = Unit {0}
  IsCanonicalValues (cons x xs) l = IsCanonical x l × IsCanonicalValues xs l

  pub IsCanonicalFields : Fields → ℕ → Type 0
  IsCanonicalFields end l = Unit {0}
  IsCanonicalFields (field k v fs) l =
      (length k < 2 ^ 53) × IsCanonical v l × IsCanonicalFields fs l

from_big_endian-append :
    (acc : ℕ) (xs : List ℕ) (b : ℕ)
    → from_big_endian acc (xs ++ (b ∷ [])) ≡ from_big_endian acc xs * 256 + b
unfolding from_big_endian
from_big_endian-append acc [] b = refl
from_big_endian-append acc (x ∷ xs) b = from_big_endian-append (acc * 256 + x) xs b

from_big_endian-big_endian : (n v : ℕ) → v < 256 ^ n → from_big_endian 0 (big_endian n v) ≡ v
unfolding big_endian
from_big_endian-big_endian zero v h = unfold from_big_endian in omega arith
from_big_endian-big_endian (suc n) v h =
    rw
      (
        from_big_endian-append 0 (big_endian n (v / 256)) (v % 256),
        from_big_endian-big_endian n (v / 256) (omega (arith, pow-suc 256 n)),
      )
      (omega arith)

length-big_endian : (n v : ℕ) → length (big_endian n v) ≡ n
unfolding big_endian
length-big_endian zero v = refl
length-big_endian (suc n) v =
    omega (
      arith,
      length-append (big_endian n (v / 256)) ((v % 256) ∷ []),
      length-big_endian n (v / 256),
    )

-- A word of `n` bytes.
word-Transfers :
    (n v : ℕ) (f : ℕ → Any)
    → v < 256 ^ n
    → Transfers
        (write_bytes (big_endian n v))
        (read_bytes n >>= λ b. pure (f (from_big_endian 0 b)))
        (f v)
        n
word-Transfers n v f h =
    subst
      (λ (m : ℕ).
        Transfers (write_bytes (big_endian n v))
          (read_bytes m >>= λ b. pure (f (from_big_endian 0 b))) (f v) m)
      (length-big_endian n v)
      (subst
        (λ (u : ℕ).
          Transfers (write_bytes (big_endian n v))
            (read_bytes (length (big_endian n v)) >>= λ b. pure (f (from_big_endian 0 b))) (f u)
            (length (big_endian n v)))
        (from_big_endian-big_endian n v h)
        (Transfers-map (λ b. f (from_big_endian 0 b)) (bytes-Transfers (big_endian n v))))

-- What writeNumber does with a small integer, and with a float64 that needs all its bits.
write_number-int31 :
    (t : ℕ)
    → IsInt31 t
    → write_number (Float.of_int64 t) ≡ (λ e. write_var_int t (write_uint8 125 e))
unfolding write_number
write_number-int31 t h =
    let (small, same) = of_int64-exact t h in
    fun_ext λ e. rw (small, of_int64-ne-neg_zero t h, same)

write_number-float64 :
    (t : ℕ)
    → is_int31 t ≡ false
    → is_float32 t ≡ false
    → (if is_nan t then t ≡ 0x7FF8000000000000 else Unit {0})
    → write_number t ≡ (λ e. write_bytes (big_endian 8 t) (write_uint8 123 e))
unfolding write_number
write_number-float64 t h k n = fun_ext λ e. rw (h, k, payload (is_nan t) n)
  where
    payload :
        (b : Bool)
        → (if b then t ≡ 0x7FF8000000000000 else Unit {0})
        → (if b then 0x7FF8000000000000 else t) ≡ t
    payload true p = sym p
    payload false p = refl

Transfers-enter :
    {w : Encoder → Encoder} {r : Read Any} {a : Any} {m : ℕ} (depth : ℕ)
    → depth ≤ 128
    → Transfers w r a m
    → Transfers (enter depth w) r a m
unfolding enter
Transfers-enter {w} depth h t = record {
  bytes = t.bytes;
  writes = λ b. rw (le→ltb depth 128 h) (t.writes b);
  reads = t.reads;
  long = t.long;
}

-- A value behind its tag.
Transfers-tagged :
    {w : Encoder → Encoder} {a : Any} {m : ℕ} (levels depth tag : ℕ)
    → suc levels + depth ≡ 129
    → Transfers w (read_tagged (read_any_at levels) tag) a m
    → Transfers (enter depth (λ e. w (write_uint8 tag e))) (read_any_at (suc levels)) a 1
unfolding read_any_at
Transfers-tagged levels depth tag h t = Transfers-enter depth (omega arith) (
    Transfers-weaken (omega arith)
      (Transfers-bind (read_tagged (read_any_at levels)) (uint8-Transfers tag) t))

-- A counted sequence, whose count is checked against what is left to read.
Transfers-counted :
    {A : Type 0} {w : Encoder → Encoder} {a : A} (c n : ℕ) (r : ℕ → Read A) (f : A → Any)
    → c ≡ n
    → n < 2 ^ 53
    → Transfers w (r n) a n
    → Transfers
        (λ e. w (write_var_uint c e))
        (read_var_uint >>= λ n.
          (λ d. if ltb (remaining d) n then err unexpected_eof else r n d) >>= λ x. pure (f x))
        (f a)
        (1 + n)
Transfers-counted c n r f e h t = rw e (
    Transfers-bind
      (λ n. (λ d. if ltb (remaining d) n then err unexpected_eof else r n d) >>= λ x. pure (f x))
      (var_uint-Transfers n h) (Transfers-map f (Transfers-bounded n unexpected_eof (le_refl n) t)))

length-field_writers :
    (fs : Fields) (depth : ℕ) → length (field_writers fs depth) ≡ length_fields fs
unfolding write_any_at length_fields
length-field_writers end depth = refl
length-field_writers (field k v fs) depth = ap suc (length-field_writers fs depth)

IsInt31-IsSafeInt : (t : ℕ) → IsInt31 t → IsSafeInt t
IsInt31-IsSafeInt t (inl h) = inl (omega arith)
IsInt31-IsSafeInt t (inr (lo, hi)) = inr (omega arith, hi)

one_fewer : (l : ℕ) → suc l - 1 ≡ l
one_fewer l = omega arith

mutual
  unfolding write_any_at read_tagged read_values read_fields length_values length_fields write_each
      write_keyed write_fields

  any_at-Transfers :
      (v : Any) (levels depth : ℕ)
      → levels + depth ≡ 129
      → IsCanonical v levels
      → Transfers (write_any_at v depth) (read_any_at levels) v 1
  any_at-Transfers unsupported levels depth e h = absurd h
  any_at-Transfers (uint64 t) levels depth e h = absurd h
  any_at-Transfers (map fs) levels depth e h = absurd h
  any_at-Transfers null zero depth e h = absurd (omega arith)
  any_at-Transfers null (suc l) depth e h = Transfers-tagged l depth 126 e (Transfers-pure null)
  any_at-Transfers undefined zero depth e h = absurd (omega arith)
  any_at-Transfers undefined (suc l) depth e h =
      Transfers-tagged l depth 127 e (Transfers-pure undefined)
  any_at-Transfers (boolean b) zero depth e h = absurd (omega arith)
  any_at-Transfers (boolean true) (suc l) depth e h =
      Transfers-tagged l depth 120 e (Transfers-pure (boolean true))
  any_at-Transfers (boolean false) (suc l) depth e h =
      Transfers-tagged l depth 121 e (Transfers-pure (boolean false))
  any_at-Transfers (string s) zero depth e h = absurd (omega arith)
  any_at-Transfers (string s) (suc l) depth e (_, h) =
      Transfers-tagged l depth 119 e (Transfers-map string (var_string-Transfers s h))
  any_at-Transfers (uint8_array b) zero depth e h = absurd (omega arith)
  any_at-Transfers (uint8_array b) (suc l) depth e (_, h) =
      Transfers-tagged l depth 116 e (Transfers-map uint8_array (var_uint8_array-Transfers b h))
  any_at-Transfers (big_int t) zero depth e h = absurd (omega arith)
  any_at-Transfers (big_int t) (suc l) depth e (_, h) =
      Transfers-tagged l depth 122 e (word-Transfers 8 t big_int h)
  any_at-Transfers (float32 t) zero depth e h = absurd (omega arith)
  any_at-Transfers (float32 t) (suc l) depth e (_, h) =
      Transfers-tagged l depth 124 e (word-Transfers 4 t float32 h)
  any_at-Transfers (int64 t) zero depth e (h, _) = absurd (omega arith)
  any_at-Transfers (int64 t) (suc l) depth e (_, h) = rw (write_number-int31 t h) (
      Transfers-tagged l depth 125 e
        (Transfers-map int64 (var_int-Transfers t (IsInt31-IsSafeInt t h))))
  any_at-Transfers (float64 t) zero depth e h = absurd (omega arith)
  any_at-Transfers (float64 t) (suc l) depth e (_, fits, i, f, n) =
      rw (write_number-float64 t i f n)
        (Transfers-tagged l depth 123 e (word-Transfers 8 t float64 fits))
  any_at-Transfers (array xs) zero depth e h = absurd (omega arith)
  any_at-Transfers (array xs) (suc l) depth e (_, fits, h) = Transfers-tagged l depth 117 e (
      Transfers-counted _ (length_values xs) (λ n. read_values n (read_any_at l)) array refl fits
        (values-Transfers xs l (suc depth) (omega arith) (rw (one_fewer l) at h)))
  any_at-Transfers (object fs) zero depth e h = absurd (omega arith)
  any_at-Transfers (object fs) (suc l) depth e (_, fits, h) = Transfers-tagged l depth 118 e (
      Transfers-counted _ (length_fields fs) (λ n. read_fields n (read_any_at l)) object
        (length-field_writers fs (suc depth)) fits
        (fields-Transfers fs l (suc depth) (omega arith) (rw (one_fewer l) at h)))

  values-Transfers :
      (xs : Values) (levels depth : ℕ)
      → levels + depth ≡ 129
      → IsCanonicalValues xs levels
      → Transfers
          (write_values xs depth)
          (read_values (length_values xs) (read_any_at levels))
          xs
          (length_values xs)
  values-Transfers nil levels depth e h = Transfers-pure nil
  values-Transfers (cons x xs) levels depth e (h, hs) = Transfers-weaken (omega arith) (
      Transfers-bind
        (λ x. read_values (length_values xs) (read_any_at levels) >>= λ xs. pure (cons x xs))
        (any_at-Transfers x levels depth e h)
        (Transfers-map (cons x) (values-Transfers xs levels depth e hs)))

  fields-Transfers :
      (fs : Fields) (levels depth : ℕ)
      → levels + depth ≡ 129
      → IsCanonicalFields fs levels
      → Transfers
          (write_each write_keyed (field_writers fs depth))
          (read_fields (length_fields fs) (read_any_at levels))
          fs
          (length_fields fs)
  fields-Transfers end levels depth e h = Transfers-pure end
  fields-Transfers (field k v fs) levels depth e (hk, h, hs) = Transfers-weaken (omega arith) (
      Transfers-bind
        (λ k. read_any_at levels >>= λ v.
          read_fields (length_fields fs) (read_any_at levels) >>= λ fs. pure (field k v fs))
        (var_string-Transfers k hk)
        (Transfers-bind
          (λ v. read_fields (length_fields fs) (read_any_at levels) >>= λ fs. pure (field k v fs))
          (any_at-Transfers v levels depth e h)
          (Transfers-map (field k v) (fields-Transfers fs levels depth e hs))))

-- A canonical value that nests at most 129 deep is read back as it was written.
pub write_any-Transfers : (v : Any) → IsCanonical v 129 → Transfers (write_any v) read_any v 1
unfolding write_any read_any
write_any-Transfers v h = any_at-Transfers v 129 0 (omega arith) h
