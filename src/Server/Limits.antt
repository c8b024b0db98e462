-- ===== src/Server/Limits.antt =====
-- The quota of a new run in server.go: the limits of a project, the counts of the repository that they
-- are compared with, and the answers of the limiter.
use nice_agent.Prelude.{
  ℕ, ◌+◌, ◌/◌, ℤ, pos, negsuc, String, Bool, ◌&&◌, not, false, Option, none, some, [], ◌∷◌, Map,
  if◌then◌else◌, eqb, leb,
}
use nice_agent.Protocol.Json.{Json, str, num, null}
use nice_agent.Protocol.Audit.{ActorContext}
use nice_agent.Protocol.Policy.{ProjectQuotaPolicy}
use nice_agent.Store.{Store}
use nice_agent.Store.Runs.{count_active_runs, count_runs_created_since}
use nice_agent.Store.Usage.{sum_run_usage_since, sum_run_usage_tokens_since}
use nice_agent.Store.Policies.{get_project_quota_policy}
use nice_agent.Quota.Limiter
use nice_agent.Quota.Limiter.{RedisLimiter, Reservation, Denial, granted, denied, Answer}

-- `runQuota`, the limits of a project without a policy, and the limiter, if there is one.
pub record QuotaOptions : Type 0 where
  pub max_concurrent_runs : ℤ
  pub max_runs_per_hour : ℤ
  pub max_tokens_per_day : ℤ
  pub max_tool_calls_per_day : ℤ
  pub max_sandbox_seconds_per_day : ℤ
  pub limiter : Option RedisLimiter

unfoldable pub effective_quota_policy : QuotaOptions → String → Store → ProjectQuotaPolicy
effective_quota_policy q project_id s = elim (get_project_quota_policy project_id s) [
  | some policy ↦ policy
  | none ↦ record {
    project_id = project_id;
    max_concurrent_runs = q.max_concurrent_runs;
    max_runs_per_hour = q.max_runs_per_hour;
    max_model_tokens_per_day = q.max_tokens_per_day;
    max_tool_calls_per_day = q.max_tool_calls_per_day;
    max_sandbox_seconds_per_day = q.max_sandbox_seconds_per_day;
    created_at = 0;
    updated_at = 0;
  }
]

-- `limit > 0 && current >= limit`
abbrev pub is_reached : ℤ → ℕ → Bool
is_reached (pos limit) current = not (eqb limit 0) && leb limit current
is_reached (negsuc n) current = false

abbrev limit_json : ℤ → Json
limit_json (pos n) = num n
limit_json (negsuc n) = null

-- A message to the user and the metadata of the audit event.
abbrev Refusal : Type 0
Refusal = Option (String × Map Json)

abbrev refusal : String → String → ℤ → ℕ → Refusal
refusal message quota limit current =
    some
      (message, ("quota", str quota) ∷ ("limit", limit_json limit) ∷ ("current", num current) ∷ [])

-- The times that the quotas count from: the start of the day, and an hour ago.
pub record Since : Type 0 where
  pub day : ℕ
  pub hour : ℕ

unfoldable pub check_daily_usage_quota :
    Since → ActorContext → ProjectQuotaPolicy → Store → Option (String × Map Json)
check_daily_usage_quota since actor quota s =
    let usage = sum_run_usage_since actor.user_id actor.project_id since.day s in
    let seconds = (usage.sandbox_duration_millis + 999) / 1000 in
    if is_reached quota.max_tool_calls_per_day usage.tool_calls
    then refusal "已达到当前项目每日工具调用上限，请明天再试。" "tool_calls_per_day" quota.max_tool_calls_per_day
        usage.tool_calls
    else if is_reached quota.max_sandbox_seconds_per_day seconds
    then refusal "已达到当前项目每日 Sandbox 执行时长上限，请明天再试。" "sandbox_seconds_per_day"
        quota.max_sandbox_seconds_per_day seconds
    else none

unfoldable pub check_token_quota :
    Since → ActorContext → ProjectQuotaPolicy → Store → Option (String × Map Json)
check_token_quota since actor quota s =
    let current = sum_run_usage_tokens_since actor.user_id actor.project_id since.day s in
    if is_reached quota.max_model_tokens_per_day current
    then refusal "已达到当前项目每日模型 token 上限，请明天再试。" "model_tokens_per_day" quota.max_model_tokens_per_day
        current
    else none

-- The first refusal.
abbrev pub or_refusal :
    Option (String × Map Json) → Option (String × Map Json) → Option (String × Map Json)
or_refusal none other = other
or_refusal (some r) other = some r

unfoldable pub check_run_quota :
    QuotaOptions → Since → ActorContext → Store → Option (String × Map Json)
check_run_quota q since actor s =
    let quota = effective_quota_policy q actor.project_id s in
    let active = count_active_runs actor.user_id actor.project_id s in
    let created = count_runs_created_since actor.user_id actor.project_id since.hour s in
    if is_reached quota.max_concurrent_runs active
    then refusal "已达到当前项目并发任务上限，请稍后再试。" "concurrent_runs" quota.max_concurrent_runs active
    else if is_reached quota.max_runs_per_hour created
    then refusal "已达到当前项目每小时任务数上限，请稍后再试。" "runs_per_hour" quota.max_runs_per_hour created
    else or_refusal (check_token_quota since actor quota s)
        (check_daily_usage_quota since actor quota s)

-- The answer of `reserveRunQuota`.
pub data QuotaAnswer : Type 0 where
  quota_failed : QuotaAnswer
  quota_denied : String → Map Json → QuotaAnswer
  quota_reserved : Option (RedisLimiter × Reservation) → QuotaAnswer

abbrev pub refused_or : QuotaAnswer → Option (String × Map Json) → QuotaAnswer
refused_or answer none = answer
refused_or answer (some (message, metadata)) = quota_denied message metadata

abbrev with_reserved : Option ℤ → Map Json → Map Json
with_reserved none metadata = metadata
with_reserved (some n) metadata = ("reserved", limit_json n) ∷ metadata

-- The metadata of a denial of the limiter.
abbrev denial_metadata : Denial → Map Json
denial_metadata denial =
    ("quota", str denial.quota)
    ∷ ("limit", limit_json denial.limit)
    ∷ ("current", limit_json denial.current)
    ∷ with_reserved denial.reserved (("source", str "redis") ∷ [])

abbrev pub limiter_answer : RedisLimiter → Answer → QuotaAnswer
limiter_answer l (granted r) = quota_reserved (some (l, r))
limiter_answer l (denied denial) = quota_denied denial.message (denial_metadata denial)
limiter_answer l Limiter.failed = quota_failed
