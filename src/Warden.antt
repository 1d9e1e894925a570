-- ===== src/Warden.antt =====
-- The moderation bot: internal/bots/warden/warden.go.
mod Tests
pub mod Limits
pub mod Loops
pub mod Moderation
pub mod Burst
pub mod Escalation
pub mod Repetition
pub mod Commands
