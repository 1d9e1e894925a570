-- ===== src/Auth.antt =====
-- internal/auth: the API keys (ApiKeys) and the admin accounts (Admins).
mod Tests
pub mod ApiKeys
pub mod Admins
