-- ===== src/Types.antt =====
-- crates/signalk-types: the data that the other parts exchange.
pub mod Json
pub mod Float
pub mod Geo
pub mod Path
pub mod Delta
pub mod Meta
pub mod Full
pub mod Notification
