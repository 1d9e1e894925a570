-- ===== src/Registry.antt =====
-- internal/registry/registry.go, in parts: the state and its persistence (Model), the signed payload
-- (Payload), the methods (Ops) and what is proved of them.
pub mod Model
pub mod Payload
pub mod Ops
pub mod Register
pub mod Access
pub mod Sweep
pub mod Reaping
pub mod Steps
pub mod Mirror
pub mod Outcomes
mod Tests
pub mod Persist
pub mod Recovery
pub mod Heartbeats
