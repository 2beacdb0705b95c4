-- ===== src/Lib0/VarUint.antt =====
-- WriteVarUint of encoder.go against ReadVarUint of decoder.go.
use native.Mathlib.Nat.{div-add-mod, mod-eq_of_lt}
use native.Mathlib.Decide.{dec_lt}
use crdt_server.Base.{
  ℕ, zero, suc, ◌+◌, ◌-◌, ◌*◌, ◌/◌, ◌%◌, ◌^◌, ◌≤◌, ◌<◌, ◌≡◌, refl, ◌∙◌, ap, List, [], ◌∷◌, ◌++◌,
  append_assoc, ltb, le→ltb, lt→ltb, length, ok, arith, if◌then◌else◌,
}
use crdt_server.Lib0.Decoder.{var_uint_loop, read_var_uint}
use crdt_server.Lib0.Encoder.{write_groups, write_var_uint}
use crdt_server.Lib0.Transfer.{Transfers}

-- The groups of seven bits of `v`, lowest first, at most `k + 1` of them.
unfoldable pub groups : ℕ → ℕ → List ℕ
groups zero v = (v % 256) ∷ []
groups (suc k) v =
    let more = (0x80 + v % 128) ∷ groups k (v / 128) in if ltb 0x7F v then more else (v % 256) ∷ []

pub write_groups-groups : (k v : ℕ) (b : List ℕ) → write_groups k v b ≡ b ++ groups k v
unfolding write_groups groups
write_groups-groups zero v b = refl
write_groups-groups (suc k) v b = ground (
  arith,
  write_groups-groups k (v / 128) (b ++ ((0x80 + v % 128) ∷ [])),
  append_assoc b ((0x80 + v % 128) ∷ []) (groups k (v / 128)),
)

pub length-groups : (k v : ℕ) → (1 ≤ length (groups k v)) × (length (groups k v) ≤ k + 1)
unfolding groups
length-groups zero v = omega arith
length-groups (suc k) v = ground (arith, length-groups k (v / 128))

-- One round of the loop on a last byte, and on a byte with the continuation bit.
pub last_byte :
    (w num mult : ℕ) (rest : List ℕ)
    → w < 128
    → num + w * mult < 2 ^ 64
    → var_uint_loop num mult (w ∷ rest) ≡ ok (num + w * mult, rest)
unfolding var_uint_loop
last_byte w num mult rest hw fits = rw (
  lt→ltb w 128 hw,
  mod-eq_of_lt {n = w} hw,
  mod-eq_of_lt {n = w * mult} {m = 2 ^ 64} (omega arith),
  mod-eq_of_lt fits,
)

pub inner_byte :
    (g num mult : ℕ) (rest : List ℕ)
    → g < 128
    → num + g * mult < 2 ^ 53
    → mult * 128 < 2 ^ 64
    → var_uint_loop num mult ((0x80 + g) ∷ rest) ≡ var_uint_loop (num + g * mult) (mult * 128) rest
unfolding var_uint_loop
inner_byte g num mult rest hg fits hm =
    let low : (0x80 + g) % 128 ≡ g = omega arith in
    rw (
      le→ltb 128 (0x80 + g) (omega arith),
      low,
      mod-eq_of_lt {n = g * mult} {m = 2 ^ 64} (omega arith),
      mod-eq_of_lt {n = num + g * mult} {m = 2 ^ 64} (omega arith),
      mod-eq_of_lt hm,
      le→ltb (num + g * mult) (2 ^ 53 - 1) (omega arith),
    )

-- A group and the rest, both scaled.
pub split_scaled : (w m : ℕ) → w * m ≡ w % 128 * m + w / 128 * (m * 128)
split_scaled w m = omega (arith, ap (λ (t : ℕ). t * m) (div-add-mod w 128))

pub scale_fits : (w m : ℕ) → 0x7F < w → m * 128 ≤ w * m
scale_fits w m h = grind arith

pub one_group : (k w : ℕ) → w < 128 → groups k w ≡ w ∷ []
unfolding groups
one_group zero w h = rw (mod-eq_of_lt {n = w} {m = 256} (omega arith))
one_group (suc k) w h =
    rw (le→ltb w 127 (omega arith), mod-eq_of_lt {n = w} {m = 256} (omega arith))

pub more_groups : (k w : ℕ) → 0x7F < w → groups (suc k) w ≡ (0x80 + w % 128) ∷ groups k (w / 128)
unfolding groups
more_groups k w h = rw (lt→ltb 127 w h)

-- `w` is what is still to be read, at the scale `mult`.
pub var_uint_loop-groups :
    (k w num mult : ℕ) (rest : List ℕ)
    → w < 128 ^ suc k
    → num + w * mult < 2 ^ 53
    → var_uint_loop num mult (groups k w ++ rest) ≡ ok (num + w * mult, rest)
var_uint_loop-groups zero w num mult rest hw fits =
    rw (one_group zero w (omega arith)) (last_byte w num mult rest (omega arith) (omega arith))
var_uint_loop-groups (suc k) w num mult rest hw fits = elim (dec_lt 0x7F w) [
  | yes h ↦ rw (more_groups k w h) (
      inner_byte (w % 128) num mult (groups k (w / 128) ++ rest) (omega arith)
        (omega (arith, split_scaled w mult)) (omega (arith, scale_fits w mult h))
      ∙ var_uint_loop-groups k (w / 128) (num + w % 128 * mult) (mult * 128) rest (omega arith)
          (omega (arith, split_scaled w mult))
      ∙ ap (λ n. ok (n, rest)) (omega (arith, split_scaled w mult)))
  | no h ↦
      rw (one_group (suc k) w (omega arith)) (last_byte w num mult rest (omega arith) (omega arith))
]

-- A number that lib0 can represent is read back as it was written.
pub var_uint-Transfers : (v : ℕ) → v < 2 ^ 53 → Transfers (write_var_uint v) read_var_uint v 1
unfolding write_var_uint read_var_uint
var_uint-Transfers v h = record {
  bytes = groups 9 v;
  writes = λ b. rw (le→ltb v (2 ^ 53 - 1) (omega arith), write_groups-groups 9 v b);
  reads = λ rest.
      var_uint_loop-groups 9 v 0 1 rest (omega arith) (omega arith)
      ∙ ap (λ n. ok (n, rest)) (omega arith);
  long = (length-groups 9 v).0;
}
