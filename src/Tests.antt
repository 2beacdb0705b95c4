-- ===== src/Tests.antt =====
-- The theorems at concrete inputs.
mod Wire
mod Rooms
mod Docs
mod Bus
mod Actor
mod Registry
