-- ===== src/Api.antt =====
-- The HTTP API, internal/api: who may call it, what a team may see, the login and the handlers of API keys
-- and admin accounts. A request is what the server reads of it: a decoded body is an argument, `none` for a
-- body that does not decode. Routing by path and the encoding of the answers are left out.
mod Tests
pub mod Access
pub mod Team
pub mod Login
pub mod Handlers
pub mod Attempts
pub mod Isolation
pub mod Guarded
