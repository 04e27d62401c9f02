-- ===== src/Clock.antt =====
-- HybridLogicalClock of packages/sync-protocol/src/hlc/HybridLogicalClock.ts: the state, `now`,
-- `update` and `compare`. `Date.now()` and the collation of `localeCompare` are arguments.
pub mod Format
pub mod Iso
pub mod Parse
mod Hlc
pub mod Monotone
pub mod RoundTrip
pub mod Safe
pub mod Calls
pub mod Trace
pub mod Exhausted
pub mod Order
mod Tests
unfoldable pub use Hlc.*
