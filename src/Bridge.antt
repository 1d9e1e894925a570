-- ===== src/Bridge.antt =====
-- The IRC bridge, internal/bots/bridge/bridge.go: the buffers of its channels, its subscribers and the
-- users that it shows.
mod Tests
pub mod Ring
pub mod History
pub mod Hub
pub mod Users
pub mod Delivery
