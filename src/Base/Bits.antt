-- ===== src/Base/Bits.antt =====
-- Masks, shifts and 64-bit words as arithmetic on the native numbers.
use Prim.Native.Nat.{ℕ, ◌+◌, ◌-◌, ◌/◌, ◌%◌, ◌^◌}
use mathlib.Core.Bool.{Bool, ◌&&◌}
use crdt_server.Base.Tests.{◌==◌, ltb}

-- `x & (1<<k - 1)`
abbrev pub low_bits : ℕ → ℕ → ℕ
low_bits x k = x % 2 ^ k

-- `x >> k`
abbrev pub shr : ℕ → ℕ → ℕ
shr x k = x / 2 ^ k

-- `x & (1<<k) != 0`
abbrev pub has_bit : ℕ → ℕ → Bool
has_bit x k = x / 2 ^ k % 2 == 1

-- An unsigned 64-bit result.
abbrev pub u64 : ℕ → ℕ
u64 x = x % 2 ^ 64

-- `a - b` on 64-bit words, signed or not.
abbrev pub sub_u64 : ℕ → ℕ → ℕ
sub_u64 a b = (a + 2 ^ 64 - b) % 2 ^ 64

-- `v < 0` for an int64 given by its bit pattern.
abbrev pub is_negative : ℕ → Bool
is_negative v = ltb (2 ^ 63 - 1) v

-- `v > 0` for an int64 given by its bit pattern.
abbrev pub is_positive : ℕ → Bool
is_positive v = ltb 0 v && ltb v (2 ^ 63)
