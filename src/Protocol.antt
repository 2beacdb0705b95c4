-- ===== src/Protocol.antt =====
-- internal/protocol: the frames that y-websocket clients speak, and the awareness states.
pub mod Messages
pub mod Awareness
