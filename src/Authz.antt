-- ===== src/Authz.antt =====
-- The package `authz`: the policy decision point, the role engine and its stores.
pub mod Types
pub mod Policy
pub mod MemStore
pub mod Rbac
pub mod PermissionSet
pub mod RbacPermissions
pub mod MemPermissions
mod Tests
