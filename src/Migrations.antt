-- ===== src/Migrations.antt =====
-- packages/database/src/migrations: a migration script is split into its statements, and
-- the scripts are applied in order.
pub mod Script
pub mod Engine
pub mod Atomic
pub mod Again
mod Tests
mod Runs
