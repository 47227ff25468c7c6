-- ===== src/Tenant.antt =====
-- The package `tenant`: identifiers, the store of tenants, the hierarchy and what is inherited
-- through it.
pub mod Ident
pub mod Errors
pub mod Store
pub mod Hierarchy
pub mod Entitlements
pub mod Inherited
pub mod Domain
pub mod DomainInherit
mod Tests
