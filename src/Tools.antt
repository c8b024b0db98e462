-- ===== src/Tools.antt =====
-- services/agent-runtime/internal/tools: the tools that an agent may call.
pub mod Policy
pub mod Ssrf
pub mod Summary
pub mod Dial
