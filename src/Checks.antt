-- ===== src/Checks.antt =====
-- The quality checks: which paths a glob matches, and which command sets a change runs.
pub mod Glob
pub mod Selection
pub mod DangerousDiff
