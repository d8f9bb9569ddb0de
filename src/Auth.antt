-- ===== src/Auth.antt =====
-- Signing in (app/services/auth_service.py, app/models/user.py).
pub mod Users
pub mod Lockout
pub mod Rows
pub mod Login
pub mod Cache
pub mod Guessing
pub mod CacheLaws
pub mod Admission
pub mod Basic
pub mod Sessions
