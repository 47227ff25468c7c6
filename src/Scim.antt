-- ===== src/Scim.antt =====
-- The package `scim`: groups that contain groups, and filters as queries.
pub mod Nesting
pub mod Filter
mod Tests
