-- ===== src/Dispatch.antt =====
-- The queue of runs on the side of the control plane, services/control-plane/internal/dispatch/queue.go.
-- The Redis client and the format of times are arguments: `sprint` is `fmt.Sprint`, `format_time` and
-- `parse_time` are `Format` and `time.Parse` with `time.RFC3339Nano`.
pub mod Memory
use nice_agent.Prelude.{
  ℕ, zero, suc, ◌+◌, ◌++◌, ℤ, pos, String, Bool, Option, none, some, List, [], ◌∷◌, Map, lookup,
  value_or, ◌⊎◌, inl, inr, ◌==◌, eqb, pos_or, or_else, if◌then◌else◌, contains_text,
}
use nice_agent.Protocol.Json.{Json}
use nice_agent.Stream.{Value, nil_value, text, bytes, other}

pub record QueuedRun : Type 0 where
  pub run_id : String
  pub attempt_id : String
  pub enqueued_at : ℕ

pub record RedisStreamMessage : Type 0 where
  pub id : String
  pub values : Map Value

pub data DecodeError : Type 0 where
  missing_run_id bad_enqueued_at : DecodeError

unfoldable pub redis_value_string : (Json → String) → Value → String
redis_value_string sprint nil_value = ""
redis_value_string sprint (text s) = s
redis_value_string sprint (bytes s) = s
redis_value_string sprint (other j) = sprint j

-- `values[key]`, which is nil where the key is missing, as a text
unfoldable pub value_of : (Json → String) → String → Map Value → String
value_of sprint key values = redis_value_string sprint (value_or nil_value (lookup key values))

unfoldable pub normalize_queued_run : ℕ → String → QueuedRun → QueuedRun
normalize_queued_run now new_id run = record run {
  attempt_id = or_else run.attempt_id new_id;
  enqueued_at = if eqb run.enqueued_at 0 then now else run.enqueued_at;
}

unfoldable pub encode_queued_run : (ℕ → String) → QueuedRun → Map Value
encode_queued_run format_time run =
    ("schema_version", text "1")
    ∷ ("run_id", text run.run_id)
    ∷ ("attempt_id", text run.attempt_id)
    ∷ ("enqueued_at", text (format_time run.enqueued_at))
    ∷ []

unfoldable pub decode_queued_run :
    (Json → String) → (String → Option ℕ) → Map Value → DecodeError ⊎ QueuedRun
decode_queued_run sprint parse_time values =
    let run_id = value_of sprint "run_id" values in
    let attempt_id = value_of sprint "attempt_id" values in
    let raw = value_of sprint "enqueued_at" values in
    if run_id == ""
    then inl missing_run_id
    else if raw == ""
    then inr (record { run_id = run_id; attempt_id = attempt_id; enqueued_at = 0 })
    else elim (parse_time raw) [
      | none ↦ inl bad_enqueued_at
      | some at ↦ inr (record { run_id = run_id; attempt_id = attempt_id; enqueued_at = at })
    ]

pub record RedisStreamsRunQueue : Type 0 where
  pub addr : String
  pub stream : String
  pub group : String
  pub consumer : String
  pub block_timeout : ℤ
  pub max_len : ℤ

-- Five seconds, in nanoseconds.
abbrev default_redis_block : ℕ
default_redis_block = 5000000000

unfoldable pub set_defaults : RedisStreamsRunQueue → RedisStreamsRunQueue
set_defaults q = record q {
  addr = or_else q.addr "127.0.0.1:6379";
  stream = or_else q.stream "niceagent:runs";
  group = or_else q.group "agent-runtimes";
  consumer = or_else q.consumer "control-plane";
  block_timeout = pos (pos_or q.block_timeout default_redis_block);
}

unfoldable pub is_redis_busy_group : String → Bool
is_redis_busy_group error = contains_text "BUSYGROUP" error

-- The answer of XREADGROUP: a message, `errQueueEmpty` or another error.
pub data ReadAnswer : Type 0 where
  message : RedisStreamMessage → ReadAnswer
  queue_empty : ReadAnswer
  read_error : String → ReadAnswer

-- What the queue meets, by the number of calls of Redis so far.
pub record Redis : Type 0 where
  pub create_group : ℕ → Option String
  pub read_group : ℕ → ReadAnswer
  pub add : ℕ → Option String
  pub ack : ℕ → Option String

-- The calls of Redis that were made, with what was added to the stream and which messages were
-- acknowledged.
pub record Traffic : Type 0 where
  pub calls : ℕ
  pub added : List (String × Map Value)
  pub acked : List String

abbrev called : Traffic → Traffic
called t = record t { calls = t.calls + 1 }

pub data QueueError : Type 0 where
  redis_error : String → QueueError
  decode_error : DecodeError → QueueError
  context_error : QueueError

-- `Enqueue`
unfoldable pub enqueue :
    Redis
    → (ℕ → String)
    → ℕ
    → String
    → RedisStreamsRunQueue
    → QueuedRun
    → Traffic
    → Option String × Traffic
enqueue redis format_time now new_id queue run t =
    let q = set_defaults queue in
    let values = encode_queued_run format_time (normalize_queued_run now new_id run) in
    (redis.add t.calls, record (called t) { added = t.added ++ (q.stream, values) ∷ [] })

-- A group that is there already is no error.
abbrev group_error : Option String → Option QueueError
group_error none = none
group_error (some e) = if is_redis_busy_group e then none else some (redis_error e)

-- `ensureGroup`
unfoldable pub ensure_group : Redis → Traffic → Option QueueError × Traffic
ensure_group redis t = (group_error (redis.create_group t.calls), called t)

-- `XAck`
unfoldable pub x_ack : Redis → String → Traffic → Option String × Traffic
x_ack redis id t = (redis.ack t.calls, record (called t) { acked = t.acked ++ id ∷ [] })

pub data Dequeued : Type 0 where
  dequeued : QueuedRun → String → Dequeued
  fails : QueueError → Dequeued
  still_waiting : Dequeued

-- One message, decoded; one that cannot be decoded is acknowledged.
unfoldable pub take_message :
    Redis
    → (Json → String)
    → (String → Option ℕ)
    → RedisStreamMessage
    → Traffic
    → Dequeued × Traffic
take_message redis sprint parse_time m t = elim (decode_queued_run sprint parse_time m.values) [
  | inl e ↦ (fails (decode_error e), (x_ack redis m.id t).1)
  | inr run ↦ (dequeued run m.id, t)
]

-- The loop of `Dequeue`, for as many reads as `fuel`: `canceled` tells before which call the context has
-- ended. A message comes with its identifier, which its `AckFunc` holds.
unfoldable pub dequeue_loop :
    Redis → (Json → String) → (String → Option ℕ) → (ℕ → Bool) → ℕ → Traffic → Dequeued × Traffic
dequeue_loop redis sprint parse_time canceled zero t = (still_waiting, t)
dequeue_loop redis sprint parse_time canceled (suc fuel) t =
    let rest = dequeue_loop redis sprint parse_time canceled fuel (called t) in
    if canceled t.calls then (fails context_error, t) else elim (redis.read_group t.calls) [
      | queue_empty ↦ rest
      | read_error e ↦ (fails (redis_error e), called t)
      | message m ↦ take_message redis sprint parse_time m (called t)
    ]

unfoldable pub dequeue :
    Redis → (Json → String) → (String → Option ℕ) → (ℕ → Bool) → ℕ → Traffic → Dequeued × Traffic
dequeue redis sprint parse_time canceled fuel t =
    let (error, t1) = ensure_group redis t in
    elim error [
      | some e ↦ (fails e, t1)
      | none ↦ dequeue_loop redis sprint parse_time canceled fuel t1
    ]

-- The `AckFunc` of a message: after a failed run it does nothing, so the message stays pending.
unfoldable pub ack_func : Redis → String → Bool → Traffic → Option String × Traffic
ack_func redis id failed t = if failed then (none, t) else x_ack redis id t
