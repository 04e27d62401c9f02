-- ===== src/Tasks.antt =====
-- packages/tasks: the durable queue of background tasks and its retry rule.
pub mod Floats
pub mod Types
pub mod Retry
pub mod Table
pub mod Enqueue
pub mod Claim
pub mod Finish
pub mod Life
pub mod Lifecycle
pub mod Calls
pub mod Unique
pub mod Claims
pub mod Tests
pub mod Recovery
