-- ===== src/Audit.antt =====
-- audit/: the append-only event log, its hash chain and the erasure of personal data.
pub mod Bytes
pub mod Event
pub mod Payload
pub mod Redaction
pub mod Chain
pub mod Logger
pub mod Tests
