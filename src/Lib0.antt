-- ===== src/Lib0.antt =====
-- internal/crdt/lib0: the constants of lib0.go and any.go. The codec is in the modules below.
pub mod Decoder
pub mod Encoder
pub mod Transfer
pub mod VarUint
pub mod VarInt
pub mod Bytes
pub mod Float
pub mod Any
pub mod Utf16
use crdt_server.Base.{ℕ, ◌-◌, ◌^◌}

-- JavaScript's Number.MAX_SAFE_INTEGER.
abbrev pub max_safe_integer : ℕ
max_safe_integer = 2 ^ 53 - 1
