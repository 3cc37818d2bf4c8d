-- ===== src/Access.antt =====
-- Who may do what: sessions, permissions and the scope of a user's data.
mod Tests
pub mod Permissions
pub mod Routes
pub mod Tokens
pub mod Checks
pub mod Captcha
pub mod Scope
pub mod Login
pub mod Sessions
