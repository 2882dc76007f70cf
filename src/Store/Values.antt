-- ===== src/Store/Values.antt =====
-- The loops of `apply_delta` in crates/signalk-store/src/store.rs, for one path at a time.
pub mod Frame
pub mod Winner
pub mod Policy
pub mod Broadcast
pub mod Sources
pub mod Stale
pub mod Settings
