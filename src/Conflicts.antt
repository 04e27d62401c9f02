-- ===== src/Conflicts.antt =====
-- Conflict resolution: packages/sync-protocol/src/conflicts and packages/sync/src/conflict.
pub mod Types
pub mod Registry
pub mod Engine
pub mod Converge
pub mod Absolute
pub mod Additive
mod Tests
