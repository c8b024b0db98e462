-- ===== src/RunQueue.antt =====
-- The worker that takes runs from the queue,
-- services/agent-runtime/internal/runqueue/worker.go. What Redis, the control plane and the engine
-- answer are arguments; what the worker asked of them is kept in Traffic. Metrics, logs and spans are
-- left out.
pub mod Reading
pub mod Worker
pub mod Parking
pub mod Unacked
pub mod Enqueued
use nice_agent.Prelude.{
  ℕ, ◌+◌, ℤ, pos, String, Bool, false, ◌||◌, Option, none, some, List, [], ◌∷◌, ◌++◌, Map, lookup,
  value_or, ◌⊎◌, inl, inr, ◌==◌, pos_or, or_else, trim_space, trim_right_slash, concat,
  if◌then◌else◌,
}
use nice_agent.Protocol.Json.{Json}
use nice_agent.Protocol.Run.{RunStatus}
use nice_agent.Protocol.Skill.{RunRequest, RunExecutionRequest}
use nice_agent.Stream.{Value, nil_value, text, bytes, other}

-- Times are nanoseconds.
pub record Config : Type 0 where
  pub redis_addr : String
  pub stream : String
  pub group : String
  pub consumer : String
  pub control_plane_url : String
  pub internal_token : String
  pub runtime_id : String
  pub block_timeout : ℤ
  pub reclaim_min_idle : ℤ
  pub reclaim_count : ℤ
  pub max_deliveries : ℤ
  pub dead_letter_stream : String
  pub dead_letter_max_len : ℤ
  pub lease_seconds : ℤ
  pub heartbeat_interval : ℤ

unfoldable pub normalize_config : Config → Config
normalize_config cfg =
    let stream = or_else (trim_space cfg.stream) "niceagent:runs" in
    let consumer = or_else (trim_space cfg.consumer) "agent-runtime" in
    record cfg {
      redis_addr = trim_space cfg.redis_addr;
      stream = stream;
      group = or_else (trim_space cfg.group) "agent-runtimes";
      consumer = consumer;
      runtime_id = or_else (trim_space cfg.runtime_id) consumer;
      control_plane_url = trim_right_slash (trim_space cfg.control_plane_url);
      block_timeout = pos (pos_or cfg.block_timeout 5000000000);
      reclaim_count = pos (pos_or cfg.reclaim_count 1);
      max_deliveries = pos (pos_or cfg.max_deliveries 5);
      dead_letter_stream = or_else cfg.dead_letter_stream (concat stream ":dlq");
      lease_seconds = pos (pos_or cfg.lease_seconds 600);
      heartbeat_interval = pos (pos_or cfg.heartbeat_interval 60000000000);
    }

unfoldable pub claimed_by : Config → String
claimed_by cfg = or_else cfg.runtime_id cfg.consumer

pub record QueuedRun : Type 0 where
  pub run_id : String
  pub attempt_id : String
  pub enqueued_at : ℕ
  pub message_id : String
  pub reclaimed : Bool
  pub previous_attempt_id : String

pub record RedisStreamMessage : Type 0 where
  pub id : String
  pub values : Map Value
  pub delivery_count : ℕ

pub data DecodeError : Type 0 where
  missing_run_id bad_enqueued_at : DecodeError

unfoldable pub redis_value_string : (Json → String) → Value → String
redis_value_string sprint nil_value = ""
redis_value_string sprint (text s) = s
redis_value_string sprint (bytes s) = s
redis_value_string sprint (other j) = sprint j

unfoldable pub value_of : (Json → String) → String → Map Value → String
value_of sprint key values = redis_value_string sprint (value_or nil_value (lookup key values))

unfoldable pub decoded : String → String → ℕ → QueuedRun
decoded run_id attempt_id enqueued_at = record {
  run_id = run_id;
  attempt_id = attempt_id;
  enqueued_at = enqueued_at;
  message_id = "";
  reclaimed = false;
  previous_attempt_id = "";
}

unfoldable pub decode_queued_run :
    (Json → String) → (String → Option ℕ) → Map Value → DecodeError ⊎ QueuedRun
decode_queued_run sprint parse_time values =
    let run_id = value_of sprint "run_id" values in
    let attempt_id = value_of sprint "attempt_id" values in
    let raw = value_of sprint "enqueued_at" values in
    if run_id == ""
    then inl missing_run_id
    else if raw == ""
    then inr (decoded run_id attempt_id 0)
    else elim (parse_time raw) [
      | none ↦ inl bad_enqueued_at
      | some at ↦ inr (decoded run_id attempt_id at)
    ]

-- What is written to the stream of dead letters, a map of texts in the code. An entry that the code
-- leaves out is `none`; `payload` is `none` where the values cannot be encoded.
pub record DeadLetter : Type 0 where
  pub original_stream : String
  pub original_id : String
  pub reason : String
  pub delivery_count : ℕ
  pub dead_lettered_at : ℕ
  pub run_id : Option String
  pub attempt_id : Option String
  pub error : Option DecodeError
  pub payload : Option String

-- A call of the control plane that claims a run.
pub record Claim : Type 0 where
  pub base_url : String
  pub run_id : String
  pub attempt_id : String
  pub claimed_by : String
  pub lease_seconds : ℤ

-- A call of `engine.Execute`.
pub record Execution : Type 0 where
  pub request : RunRequest
  pub user_message : String
  pub base_url : String

-- What the worker has asked for: the number of calls, the dead letters that Redis took, the messages
-- that were acknowledged, the claims and the executions.
pub record Traffic : Type 0 where
  pub calls : ℕ
  pub parked : List DeadLetter
  pub acked : List String
  pub claims : List Claim
  pub executions : List Execution

pub data ReadAnswer : Type 0 where
  message : RedisStreamMessage → ReadAnswer
  queue_empty : ReadAnswer
  read_error : ReadAnswer

-- The answer of the control plane: none, or a status code and what its body decodes to.
pub data HttpAnswer : Type 0 where
  no_answer : HttpAnswer
  response : ℕ → Option RunExecutionRequest → HttpAnswer

-- What the worker meets. An answer may depend on how many calls were made before; `sprint` and
-- `parse_time` are `fmt.Sprint` and `time.Parse` with `time.RFC3339Nano`, `marshal` is `json.Marshal`.
pub record Outside : Type 0 where
  pub sprint : Json → String
  pub parse_time : String → Option ℕ
  pub marshal : Map Value → Option String
  pub now : ℕ → ℕ
  pub fresh_attempt : ℕ → String
  pub has_engine : Bool
  pub create_group : ℕ → Option String
  pub read_group : ℕ → ReadAnswer
  pub auto_claim : ℕ → Option (List RedisStreamMessage)
  pub pending : ℕ → String → Option (List ℕ)
  pub add : ℕ → DeadLetter → Bool
  pub ack : ℕ → String → Bool
  pub execution_context : ℕ → QueuedRun → HttpAnswer
  pub claim : ℕ → Claim → Option RunStatus

abbrev pub called : Traffic → Traffic
called t = record t { calls = t.calls + 1 }
