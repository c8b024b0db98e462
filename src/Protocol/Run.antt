-- ===== src/Protocol/Run.antt =====
-- packages/common/protocol/run.go. Times are numbers, the zero time is 0, and a `*time.Time` is an
-- option. The counters of a usage are natural numbers, and a cost counts whole units.
use nice_agent.Prelude.{ℕ, ◌+◌, String, Bool, true, false, ◌||◌, Option, eqb, if◌then◌else◌}

-- `unset` is the empty text, the status of the zero `Run`.
pub data RunStatus : Type 0 where
  unset queued running waiting_for_approval succeeded failed canceled : RunStatus

-- `==` on statuses
abbrev pub eq_status : RunStatus → RunStatus → Bool
eq_status unset unset = true
eq_status queued queued = true
eq_status running running = true
eq_status waiting_for_approval waiting_for_approval = true
eq_status succeeded succeeded = true
eq_status failed failed = true
eq_status canceled canceled = true
eq_status _ _ = false

abbrev pub is_terminal_run_status : RunStatus → Bool
is_terminal_run_status status =
    eq_status status succeeded || eq_status status failed || eq_status status canceled

abbrev pub is_active_run_status : RunStatus → Bool
is_active_run_status status =
    eq_status status queued || eq_status status running || eq_status status waiting_for_approval

pub record RunUsage : Type 0 where
  pub provider : String
  pub model : String
  pub input_tokens : ℕ
  pub output_tokens : ℕ
  pub reasoning_tokens : ℕ
  pub cached_tokens : ℕ
  pub total_tokens : ℕ
  pub estimated : Bool
  pub token_estimator : String
  pub cost : ℕ
  pub currency : String
  pub latency_millis : ℕ
  pub retry_count : ℕ
  pub fallback_from : String
  pub fallback_to : String
  pub error_class : String
  pub tool_calls : ℕ
  pub tool_errors : ℕ
  pub sandbox_commands : ℕ
  pub sandbox_duration_millis : ℕ
  pub sandbox_output_bytes : ℕ
  pub sandbox_cpu_millis : ℕ
  pub sandbox_memory_max_bytes : ℕ
  pub artifact_count : ℕ
  pub artifact_bytes : ℕ

abbrev pub zero_run_usage : RunUsage
zero_run_usage = record {
  provider = "";
  model = "";
  input_tokens = 0;
  output_tokens = 0;
  reasoning_tokens = 0;
  cached_tokens = 0;
  total_tokens = 0;
  estimated = false;
  token_estimator = "";
  cost = 0;
  currency = "";
  latency_millis = 0;
  retry_count = 0;
  fallback_from = "";
  fallback_to = "";
  error_class = "";
  tool_calls = 0;
  tool_errors = 0;
  sandbox_commands = 0;
  sandbox_duration_millis = 0;
  sandbox_output_bytes = 0;
  sandbox_cpu_millis = 0;
  sandbox_memory_max_bytes = 0;
  artifact_count = 0;
  artifact_bytes = 0;
}

unfoldable pub normalize_run_usage : RunUsage → RunUsage
normalize_run_usage usage =
    if eqb usage.total_tokens 0
    then record usage { total_tokens = usage.input_tokens + usage.output_tokens }
    else usage

pub record Run : Type 0 where
  pub id : String
  pub chat_id : String
  pub user_id : String
  pub workspace_id : String
  pub attempt_id : String
  pub claimed_by : String
  pub lease_expires_at : Option ℕ
  pub attempt_count : ℕ
  pub status : RunStatus
  pub error : String
  pub usage : RunUsage
  pub created_at : ℕ
  pub updated_at : ℕ
  pub started_at : Option ℕ
  pub finished_at : Option ℕ
