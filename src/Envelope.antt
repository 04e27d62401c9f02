-- ===== src/Envelope.antt =====
-- packages/sync-protocol/src/envelope: signed envelopes around the operations that peers exchange.
pub mod Json
pub mod Canonical
pub mod Types
pub mod Builder
pub mod Signing
pub mod Samples
mod Tests
