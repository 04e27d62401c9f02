-- ===== src/Replication.antt =====
-- packages/sync/src/inbox and outbox: the durable queues of envelopes received and to be sent.
pub mod Inbox
pub mod Once
pub mod Delivery
pub mod Outbox
pub mod Worker
pub mod Tombstones
pub mod Sends
pub mod Sending
pub mod Draining
mod Tests
