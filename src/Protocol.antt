-- ===== src/Protocol.antt =====
-- The shared protocol types of packages/common/protocol.
pub mod Json
pub mod Run
pub mod Chat
pub mod Event
pub mod Skill
pub mod Audit
pub mod Identity
pub mod Invitation
pub mod Policy
