-- ===== src/Ingest.antt =====
-- src/collectmind/ingest: the way of a finding into the system.
pub mod SchemaVersion
pub mod Idempotency
pub mod Handler
pub mod Concurrent
mod Examples
