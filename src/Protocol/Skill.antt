-- ===== src/Protocol/Skill.antt =====
-- packages/common/protocol/skill.go: skills, and what a runtime gets of them.
use nice_agent.Prelude.{ℤ, String, Bool, Map, List, lookup, none, some, value_or}

-- `unset_risk` and `unset_skill_status` are the empty text.
pub data SkillRisk : Type 0 where
  unset_risk low_risk medium_risk high_risk : SkillRisk

pub data SkillScope : Type 0 where
  system_scope user_scope : SkillScope

pub data SkillKind : Type 0 where
  builtin_kind http_kind mcp_kind : SkillKind

pub data SkillStatus : Type 0 where
  unset_skill_status skill_enabled skill_disabled skill_archived : SkillStatus

pub record Skill : Type 0 where
  pub id : String
  pub slug : String
  pub scope : SkillScope
  pub kind : SkillKind
  pub owner_user_id : String
  pub project_id : String
  pub status : SkillStatus
  pub current_version_id : String
  pub name : String
  pub version : String
  pub description : String
  pub risk : SkillRisk
  pub requires_auth : Bool
  pub input_schema : String
  pub output_schema : String
  pub annotations : String
  pub runtime_config : String
  pub enabled : Bool

pub record RuntimeSecret : Type 0 where
  pub encrypted_value : String
  pub secret_ref : String

pub record RuntimeSkill : Type 0 where
  pub skill : Skill
  pub secrets : Map String
  pub secret_materials : Map RuntimeSecret

-- `SecretMaterial`
unfoldable pub secret_material : String → RuntimeSkill → RuntimeSecret
secret_material key s = elim (lookup key s.secret_materials) [
  | some material ↦ material
  | none ↦ record { encrypted_value = value_or "" (lookup key s.secrets); secret_ref = "" }
]

pub record HttpSkillInput : Type 0 where
  pub name : String
  pub description : String
  pub method : String
  pub url : String
  pub input_schema : String
  pub output_schema : String
  pub timeout_seconds : ℤ
  pub retry_max_attempts : ℤ
  pub rate_limit_per_minute : ℤ
  pub auth_type : String
  pub bearer_token : String
  pub bearer_token_secret_ref : String

pub record McpImportCreateInput : Type 0 where
  pub document : String
  pub tool_name : String
  pub server_url : String
  pub name : String
  pub description : String
  pub auth_type : String
  pub bearer_token : String
  pub bearer_token_secret_ref : String
  pub timeout_seconds : ℤ
  pub retry_max_attempts : ℤ
  pub rate_limit_per_minute : ℤ

pub record McpSkillImportCandidate : Type 0 where
  pub name : String
  pub description : String
  pub input_schema : String
  pub output_schema : String
  pub annotations : String
  pub read_only_hint : Bool
  pub destructive : Bool
  pub idempotent : Bool
  pub open_world : Bool

-- A run as its runtime gets it (`RunRequest` of run.go).
pub record RunRequest : Type 0 where
  pub run_id : String
  pub chat_id : String
  pub user_id : String
  pub workspace_id : String
  pub attempt_id : String
  pub skill_ids : List String
  pub skills : List RuntimeSkill
  pub model_policy : String
  pub skill_risk_policy : String

-- `RunExecutionRequest` of run.go
pub record RunExecutionRequest : Type 0 where
  pub request : RunRequest
  pub user_message : String
  pub control_plane_url : String
