-- ===== src/Store/Usage.antt =====
-- The usage of runs in store.go: its sum for a user, and its buckets for a project. A range over the map
-- takes the order of the list.
pub mod Totals
use Prim.Native.String
use Prim.Native.Nat.{Ordering}
use nice_agent.Prelude.{
  ℕ, ◌+◌, String, Bool, ◌&&◌, not, true, false, Option, none, some, List, [], ◌∷◌, Map, lookup, put,
  value_or, ltb, ◌==◌, concat, pair_key, sort_by, if◌then◌else◌,
}
use nice_agent.Protocol.Run.{Run, RunUsage, zero_run_usage, normalize_run_usage}
use nice_agent.Protocol.Chat.{ChatSession}
use nice_agent.Protocol.Policy.{RunUsageBucket}
use nice_agent.Store.{Store}

abbrev in_project : String → Option ChatSession → Bool
in_project project_id none = false
in_project project_id (some chat) = chat.project_id == project_id

-- The run of a usage is there, passes the test, is not older than `since`, and its chat is one of the
-- project.
unfoldable pub counts : (Run → Bool) → String → ℕ → String → Store → Bool
counts test project_id since run_id s = elim (lookup run_id s.runs) [
  | none ↦ false
  | some run ↦
      test run
      && not (ltb run.created_at since)
      && in_project project_id (lookup run.chat_id s.chats)
]

-- The normalized usages that a loop takes, in its order.
unfoldable pub usages_since : (Run → Bool) → String → ℕ → Map RunUsage → Store → List RunUsage
usages_since test project_id since [] s = []
usages_since test project_id since ((run_id, usage) ∷ usages) s =
    let rest = usages_since test project_id since usages s in
    if counts test project_id since run_id s then normalize_run_usage usage ∷ rest else rest

abbrev max_of : ℕ → ℕ → ℕ
max_of a b = if ltb a b then b else a

-- One round of the sum.
unfoldable pub add_usage : RunUsage → RunUsage → RunUsage
add_usage total usage = record total {
  input_tokens = total.input_tokens + usage.input_tokens;
  output_tokens = total.output_tokens + usage.output_tokens;
  reasoning_tokens = total.reasoning_tokens + usage.reasoning_tokens;
  cached_tokens = total.cached_tokens + usage.cached_tokens;
  total_tokens = total.total_tokens + usage.total_tokens;
  cost = total.cost + usage.cost;
  latency_millis = total.latency_millis + usage.latency_millis;
  retry_count = total.retry_count + usage.retry_count;
  tool_calls = total.tool_calls + usage.tool_calls;
  tool_errors = total.tool_errors + usage.tool_errors;
  sandbox_commands = total.sandbox_commands + usage.sandbox_commands;
  sandbox_duration_millis = total.sandbox_duration_millis + usage.sandbox_duration_millis;
  sandbox_output_bytes = total.sandbox_output_bytes + usage.sandbox_output_bytes;
  sandbox_cpu_millis = total.sandbox_cpu_millis + usage.sandbox_cpu_millis;
  sandbox_memory_max_bytes = max_of total.sandbox_memory_max_bytes usage.sandbox_memory_max_bytes;
  artifact_count = total.artifact_count + usage.artifact_count;
  artifact_bytes = total.artifact_bytes + usage.artifact_bytes;
}

unfoldable pub sum_usages : RunUsage → List RunUsage → RunUsage
sum_usages total [] = total
sum_usages total (usage ∷ usages) = sum_usages (add_usage total usage) usages

unfoldable pub sum_run_usage_since : String → String → ℕ → Store → RunUsage
sum_run_usage_since user_id project_id since s =
    sum_usages zero_run_usage
      (usages_since (λ run. run.user_id == user_id) project_id since s.run_usage s)

unfoldable pub sum_run_usage_tokens_since : String → String → ℕ → Store → ℕ
sum_run_usage_tokens_since user_id project_id since s =
    (sum_run_usage_since user_id project_id since s).total_tokens

unfoldable pub format_bool : Bool → String
format_bool v = if v then "true" else "false"

unfoldable pub usage_bucket_key : RunUsage → String
usage_bucket_key usage = pair_key usage.provider (
    pair_key usage.model
      (pair_key usage.currency (pair_key (format_bool usage.estimated) usage.token_estimator)))

unfoldable pub empty_bucket : RunUsage → RunUsageBucket
empty_bucket usage = record {
  provider = usage.provider;
  model = usage.model;
  currency = usage.currency;
  estimated = usage.estimated;
  token_estimator = usage.token_estimator;
  run_count = 0;
  input_tokens = 0;
  output_tokens = 0;
  reasoning_tokens = 0;
  cached_tokens = 0;
  total_tokens = 0;
  cost = 0;
  latency_millis = 0;
  retry_count = 0;
  tool_calls = 0;
  tool_errors = 0;
  sandbox_commands = 0;
  sandbox_duration_millis = 0;
  sandbox_output_bytes = 0;
  sandbox_cpu_millis = 0;
  sandbox_memory_max_bytes = 0;
  artifact_count = 0;
  artifact_bytes = 0;
}

unfoldable pub add_usage_to_bucket : RunUsageBucket → RunUsage → RunUsageBucket
add_usage_to_bucket bucket usage = record bucket {
  run_count = bucket.run_count + 1;
  input_tokens = bucket.input_tokens + usage.input_tokens;
  output_tokens = bucket.output_tokens + usage.output_tokens;
  reasoning_tokens = bucket.reasoning_tokens + usage.reasoning_tokens;
  cached_tokens = bucket.cached_tokens + usage.cached_tokens;
  total_tokens = bucket.total_tokens + usage.total_tokens;
  cost = bucket.cost + usage.cost;
  latency_millis = bucket.latency_millis + usage.latency_millis;
  retry_count = bucket.retry_count + usage.retry_count;
  tool_calls = bucket.tool_calls + usage.tool_calls;
  tool_errors = bucket.tool_errors + usage.tool_errors;
  sandbox_commands = bucket.sandbox_commands + usage.sandbox_commands;
  sandbox_duration_millis = bucket.sandbox_duration_millis + usage.sandbox_duration_millis;
  sandbox_output_bytes = bucket.sandbox_output_bytes + usage.sandbox_output_bytes;
  sandbox_cpu_millis = bucket.sandbox_cpu_millis + usage.sandbox_cpu_millis;
  sandbox_memory_max_bytes = max_of bucket.sandbox_memory_max_bytes usage.sandbox_memory_max_bytes;
  artifact_count = bucket.artifact_count + usage.artifact_count;
  artifact_bytes = bucket.artifact_bytes + usage.artifact_bytes;
}

-- One round of the loop over the usages.
unfoldable pub put_usage : RunUsage → Map RunUsageBucket → Map RunUsageBucket
put_usage usage buckets =
    let key = usage_bucket_key usage in
    put key (add_usage_to_bucket (value_or (empty_bucket usage) (lookup key buckets)) usage) buckets

unfoldable pub buckets_by_key : Map RunUsageBucket → List RunUsage → Map RunUsageBucket
buckets_by_key buckets [] = buckets
buckets_by_key buckets (usage ∷ usages) = buckets_by_key (put_usage usage buckets) usages

-- The order of texts, decided by `rest` where they are equal.
abbrev text_before : String → String → Bool → Bool
text_before a b rest = elim (String.compare a b) [
  | Ordering.lt ↦ true
  | Ordering.eq ↦ rest
  | Ordering.gt ↦ false
]

-- false before true
abbrev flag_before : Bool → Bool → Bool → Bool
flag_before false true rest = true
flag_before true false rest = false
flag_before a b rest = rest

-- The order of `sortRunUsageBuckets`.
unfoldable pub bucket_before : RunUsageBucket → RunUsageBucket → Bool
bucket_before a b = text_before a.provider b.provider (
    text_before a.model b.model (
      text_before a.currency b.currency (
        flag_before a.estimated b.estimated
          (text_before a.token_estimator b.token_estimator true))))

abbrev pub buckets_of : Map RunUsageBucket → List RunUsageBucket
buckets_of [] = []
buckets_of ((key, bucket) ∷ buckets) = bucket ∷ buckets_of buckets

unfoldable pub list_run_usage_buckets_since : String → ℕ → Store → List RunUsageBucket
list_run_usage_buckets_since project_id since s =
    sort_by bucket_before
      (buckets_of (buckets_by_key [] (usages_since (λ run. true) project_id since s.run_usage s)))
