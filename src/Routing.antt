-- ===== src/Routing.antt =====
-- routing/: which provider runs a node, and what is tried when it fails.
pub mod Fallback
pub mod Config
pub mod Route
pub mod Attempts
pub mod Retry
pub mod Stage
