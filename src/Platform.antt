-- ===== src/Platform.antt =====
-- packages/common/platform: what both programs share.
pub mod Redact
