-- ===== src/Notes.antt =====
-- apps/minimal-consumer/src/notes: a feature on top of the platform's services.
pub mod Tables
pub mod Service
pub mod Effects
pub mod Published
pub mod Pruning
pub mod Calls
pub mod Reading
mod Tests
