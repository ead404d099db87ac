-- ===== src/Security.antt =====
-- security/: the arguments that may never be passed to a provider.
pub mod ForbiddenArgs
