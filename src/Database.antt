-- ===== src/Database.antt =====
-- packages/database/src/connection: transactions of the two database connections.
pub mod Client
pub mod Agreement
pub mod Reading
mod Tests
