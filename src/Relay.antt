-- ===== src/Relay.antt =====
-- The session relay: pkg/sessionrelay, its channel names, its levels of messages and the connector that
-- posts a message only to the channels whose resolution accepts its level.
mod Tests
pub mod Channels
pub mod Levels
pub mod Posting
pub mod Names
