-- ===== src/Auth.antt =====
-- internal/auth: users, passwords and access tokens.
pub mod Models
pub mod Hex
pub mod Password
pub mod Service
