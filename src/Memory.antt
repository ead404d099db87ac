-- ===== src/Memory.antt =====
-- memory/: what agents remember between tasks.
pub mod Lifecycle
pub mod Records
pub mod Delta
pub mod Audit
pub mod Store
pub mod Snapshots
pub mod Identity
pub mod Cleanup
pub mod Ingest
pub mod Proposals
pub mod Lessons
pub mod Cards
pub mod Funnel
