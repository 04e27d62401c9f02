-- ===== src/Groups.antt =====
-- packages/authorization/src/sync-group: groups of devices that sync, and their members.
pub mod Tables
pub mod Context
pub mod Service
pub mod Access
pub mod Effects
pub mod Calls
pub mod Founded
pub mod Invariant
pub mod Revoked
pub mod Authorised
pub mod Readmitted
mod Tests
