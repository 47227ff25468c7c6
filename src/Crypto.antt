-- ===== src/Crypto.antt =====
-- The package `crypto`: the set of keys that secrets are stored under.
pub mod KeySet
mod Tests
