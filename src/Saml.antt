-- ===== src/Saml.antt =====
-- The package `saml`: the defence against replayed assertions.
pub mod Replay
pub mod Ledger
mod Tests
