-- ===== src/Identity.antt =====
-- identity/: accounts, sessions, memberships and invitations, over the in-memory store.
pub mod Types
pub mod MemStore
pub mod Action
pub mod Core
pub mod Membership
pub mod Invitation
pub mod History
pub mod Rotation
pub mod Revocation
pub mod Login
pub mod Enter
pub mod Tests
