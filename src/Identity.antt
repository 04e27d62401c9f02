-- ===== src/Identity.antt =====
-- packages/identity/src: the devices that are known, and the session of the user who signed in.
pub mod Devices
pub mod Sessions
pub mod Established
mod Tests
