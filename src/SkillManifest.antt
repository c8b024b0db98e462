-- ===== src/SkillManifest.antt =====
-- packages/common/skillmanifest: what a user may register as a skill. `encoding/json`, `net/url` and the
-- library of JSON schemas are arguments.
pub mod Schema
pub mod HttpConfig
pub mod Mcp
