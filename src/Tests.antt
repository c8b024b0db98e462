-- ===== src/Tests.antt =====
-- Concrete runs of the model, and each result at an input that meets its conditions.
mod Data
mod RunTests
mod EventTests
mod FanoutTests
mod QueueTests
mod SkillTests
mod ToolTests
mod ServerTests
mod MessageTests
mod ActionTests
mod ArtifactTests
mod SinkTests
mod InvitationTests
mod OutboxTests
mod Counters
mod LimiterTests
mod RetryTests
