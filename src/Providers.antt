-- ===== src/Providers.antt =====
-- The providers: their vocabulary, their capabilities, and what the router exchanges with them.
pub mod Base
pub mod Profiles
pub mod Capabilities
pub mod Reasoning
pub mod Request
pub mod Redaction
