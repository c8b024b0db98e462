-- ===== src/Protocol/Policy.antt =====
-- The policies of a project: packages/common/protocol/quota.go and runtime_policy.go.
use nice_agent.Prelude.{ℕ, String, Bool, ℤ, ◌==◌, ◌||◌, if◌then◌else◌, trim_space}

pub record ProjectQuotaPolicy : Type 0 where
  pub project_id : String
  pub max_concurrent_runs : ℤ
  pub max_runs_per_hour : ℤ
  pub max_model_tokens_per_day : ℤ
  pub max_tool_calls_per_day : ℤ
  pub max_sandbox_seconds_per_day : ℤ
  pub created_at : ℕ
  pub updated_at : ℕ

pub record ProjectQuotaPolicyInput : Type 0 where
  pub max_concurrent_runs : ℤ
  pub max_runs_per_hour : ℤ
  pub max_model_tokens_per_day : ℤ
  pub max_tool_calls_per_day : ℤ
  pub max_sandbox_seconds_per_day : ℤ

pub record ProjectRuntimePolicy : Type 0 where
  pub project_id : String
  pub skill_risk_policy : String
  pub created_at : ℕ
  pub updated_at : ℕ

-- The switch of `NormalizeSkillRiskPolicy`
known_policy : String → String
known_policy policy =
    if policy == "" || policy == "allow"
    then "allow"
    else if policy == "block-high" || policy == "block-destructive" || policy == "read-only"
    then policy
    else ""

unfoldable pub normalize_skill_risk_policy : String → String
unfolding known_policy
normalize_skill_risk_policy policy = known_policy (trim_space policy)

-- `RunUsageBucket` of quota.go: the usage of runs with one provider, model, currency and way of counting.
pub record RunUsageBucket : Type 0 where
  pub provider : String
  pub model : String
  pub currency : String
  pub estimated : Bool
  pub token_estimator : String
  pub run_count : ℕ
  pub input_tokens : ℕ
  pub output_tokens : ℕ
  pub reasoning_tokens : ℕ
  pub cached_tokens : ℕ
  pub total_tokens : ℕ
  pub cost : ℕ
  pub latency_millis : ℕ
  pub retry_count : ℕ
  pub tool_calls : ℕ
  pub tool_errors : ℕ
  pub sandbox_commands : ℕ
  pub sandbox_duration_millis : ℕ
  pub sandbox_output_bytes : ℕ
  pub sandbox_cpu_millis : ℕ
  pub sandbox_memory_max_bytes : ℕ
  pub artifact_count : ℕ
  pub artifact_bytes : ℕ
