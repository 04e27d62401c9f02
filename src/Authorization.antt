-- ===== src/Authorization.antt =====
-- packages/authorization: roles, permissions, scopes and the decision that the engine takes.
pub mod Scope
pub mod Engine
pub mod Joins
pub mod Grants
pub mod Require
mod Tests
