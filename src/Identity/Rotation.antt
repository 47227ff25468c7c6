-- ===== src/Identity/Rotation.antt =====
-- identity/core.go: `Refresh` and what becomes of its token.
pub mod Spent
pub mod Keyed
pub mod Exchange
pub mod Once
