-- ===== src/Auth.antt =====
-- Authentication and access control, lib/auth.
pub mod Base64
pub mod Rbac
