-- ===== src/Sync.antt =====
-- The connection side of packages/sync: the state machine of one peer and the manager of all.
pub mod State
pub mod Authenticated
pub mod Manager
pub mod FailClosed
mod Tests
