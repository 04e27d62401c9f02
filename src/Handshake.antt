-- ===== src/Handshake.antt =====
-- packages/sync-protocol/src/handshake: the validation of a peer's first message.
pub mod Validator
pub mod Replay
pub mod Overlap
mod Tests
