-- ===== src/Features.antt =====
-- packages/feature-system: the order in which features are initialised.
pub mod Resolver
pub mod Order
pub mod Visit
pub mod Termination
pub mod Checks
pub mod Total
pub mod Once
pub mod Exactly
pub mod Cycle
mod Tests
