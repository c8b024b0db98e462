-- ===== src/Store/Policies.antt =====
-- The policies of a project in store.go.
use nice_agent.Prelude.{
  ℕ, String, Bool, Option, none, some, lookup, put, ◌==◌, ◌||◌, eqb, if◌then◌else◌, trim_space,
  is_neg,
}
use nice_agent.Protocol.Policy.{
  ProjectQuotaPolicy, ProjectQuotaPolicyInput, ProjectRuntimePolicy, normalize_skill_risk_policy,
}
use nice_agent.Store.{Store, Result, ok, err, invalid_input}

unfoldable pub get_project_quota_policy : String → Store → Option ProjectQuotaPolicy
get_project_quota_policy project_id s = lookup project_id s.quota_policies

-- The creation time that is kept: the present, for a policy that is new.
kept_or_now : ℕ → Option ℕ → ℕ
kept_or_now now none = now
kept_or_now now (some t) = if eqb t 0 then now else t

abbrev pub negative_limit : ProjectQuotaPolicyInput → Bool
negative_limit input =
    is_neg input.max_concurrent_runs
    || is_neg input.max_runs_per_hour
    || is_neg input.max_model_tokens_per_day
    || is_neg input.max_tool_calls_per_day
    || is_neg input.max_sandbox_seconds_per_day

unfoldable pub set_project_quota_policy :
    ℕ → String → ProjectQuotaPolicyInput → Store → Result ProjectQuotaPolicy × Store
unfolding kept_or_now
set_project_quota_policy now project_id input s =
    if negative_limit input
    then (err invalid_input, s)
    else (let policy : ProjectQuotaPolicy = record {
      project_id = project_id;
      max_concurrent_runs = input.max_concurrent_runs;
      max_runs_per_hour = input.max_runs_per_hour;
      max_model_tokens_per_day = input.max_model_tokens_per_day;
      max_tool_calls_per_day = input.max_tool_calls_per_day;
      max_sandbox_seconds_per_day = input.max_sandbox_seconds_per_day;
      created_at = kept_or_now now (elim (lookup project_id s.quota_policies) [
        | none ↦ none
        | some policy ↦ some policy.created_at
      ]);
      updated_at = now;
    } in
        (ok policy, record s { quota_policies = put project_id policy s.quota_policies }))

unfoldable pub get_project_runtime_policy : String → Store → Option ProjectRuntimePolicy
get_project_runtime_policy project_id s = lookup project_id s.runtime_policies

unfoldable pub set_project_runtime_policy :
    ℕ → String → String → Store → Result ProjectRuntimePolicy × Store
unfolding kept_or_now
set_project_runtime_policy now project_id skill_risk_policy s =
    let risk_policy = normalize_skill_risk_policy (trim_space skill_risk_policy) in
    if risk_policy == ""
    then (err invalid_input, s)
    else (let policy : ProjectRuntimePolicy = record {
      project_id = project_id;
      skill_risk_policy = risk_policy;
      created_at = kept_or_now now (elim (lookup project_id s.runtime_policies) [
        | none ↦ none
        | some policy ↦ some policy.created_at
      ]);
      updated_at = now;
    } in
        (ok policy, record s { runtime_policies = put project_id policy s.runtime_policies }))
