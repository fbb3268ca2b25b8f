-- ===== src/Auth.antt =====
-- Who may use which conversation: packages/auth/src.
pub mod Ownership
pub mod Kept
pub mod Owners
mod Tests
