-- ===== src/CmdParse.antt =====
-- internal/bots/cmdparse/cmdparse.go: how a bot reads commands from messages and what it answers.
-- Texts are ASCII, but for the dash of the help texts, which stands as its three UTF-8 bytes.
mod Tests
pub mod Router
pub mod Dispatch
