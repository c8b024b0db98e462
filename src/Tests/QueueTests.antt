-- ===== src/Tests/QueueTests.antt =====
-- The queue of runs: what the control plane writes, and a round of the worker.
use Prim.Native.Char.{nul}
use nice_agent.Prelude.{
  ℕ, pos, String, true, false, Option, none, some, ◌≡◌, refl, inr, ◌==◌, List, [], ◌∷◌, arith,
  trim_space, trim_right_slash, contains_text, has_prefix, lookup, zero, suc, ap, Bool-cases,
  eq_iff, inl,
}
use nice_agent.Protocol.Skill.{RunRequest}
use nice_agent.Stream.{text}
use nice_agent.Dispatch
use nice_agent.Dispatch.{encode_queued_run}
use nice_agent.RunQueue.{
  Config, RedisStreamMessage, Traffic, queue_empty, response, Outside, decode_queued_run, decoded,
  value_of, redis_value_string, claimed_by,
}
use nice_agent.RunQueue.Reading.{
  ensure_group, read_next_message, auto_claim_pending, claim_loop, pending_retry_count, park,
  dead_letter, dead_letter_of, x_ack,
}
use nice_agent.RunQueue.Worker.{
  process_next, process_message, process_run, with_message, execute_queued_run,
  fetch_execution_context, context_of, filled_context, claim_then_execute, claim_of, execute,
}
use nice_agent.RunQueue.Parking.{Parked, read_next_message-IsSeldom, IsSeldom}
use nice_agent.RunQueue.Unacked.{process_next-Parked}
use nice_agent.RunQueue.Enqueued.{decode-encode}

abbrev queued_run : Dispatch.QueuedRun
queued_run = record { run_id = "run_1"; attempt_id = "attempt_a"; enqueued_at = 7 }

-- A time as so many letters, and back.
abbrev letters : ℕ → String
letters zero = String.◌∷◌ nul ""
letters (suc n) = String.◌∷◌ nul (letters n)

abbrev letters_after : String → ℕ
letters_after String.[] = 0
letters_after (String.◌∷◌ c s) = suc (letters_after s)

abbrev count_letters : String → Option ℕ
count_letters String.[] = none
count_letters (String.◌∷◌ c s) = some (letters_after s)

letters_after-letters : (n : ℕ) → letters_after (letters n) ≡ suc n
letters_after-letters zero = refl
letters_after-letters (suc n) = ap suc (letters_after-letters n)

letters_count : (n : ℕ) → count_letters (letters n) ≡ some n
letters_count zero = refl
letters_count (suc n) = ap some (letters_after-letters n)

letters_there : (n : ℕ) → (letters n == "") ≡ false
letters_there n = elim (Bool-cases (letters n == "")) [
  | inr other ↦ other
  | inl same ↦
      absurd
        (omega (arith, ap letters_after ((eq_iff (letters n) "").0 same), letters_after-letters n))
]

decode-encode_example :
    (decode_queued_run (λ j. "") count_letters (encode_queued_run letters queued_run)
      ≡ inr (decoded "run_1" "attempt_a" 7))
    × (Dispatch.decode_queued_run (λ j. "") count_letters (encode_queued_run letters queued_run)
        ≡ inr queued_run)
decode-encode_example =
    decode-encode (λ j. "") letters count_letters queued_run letters_there letters_count refl

abbrev cfg : Config
cfg = record {
  redis_addr = "";
  stream = "niceagent:runs";
  group = "agent-runtimes";
  consumer = "runtime_a";
  control_plane_url = "http://control-plane";
  internal_token = "";
  runtime_id = "";
  block_timeout = pos 0;
  reclaim_min_idle = pos 1;
  reclaim_count = pos 2;
  max_deliveries = pos 5;
  dead_letter_stream = "niceagent:runs:dlq";
  dead_letter_max_len = pos 0;
  lease_seconds = pos 600;
  heartbeat_interval = pos 1;
}

abbrev message_of : String → RedisStreamMessage
message_of id = record { id = id; values = ("run_id", text "run_1") ∷ []; delivery_count = 0 }

abbrev deliveries_of : String → Option (List ℕ)
deliveries_of id = elim (id == "1-0") [ true ↦ some (5 ∷ []) | false ↦ some (1 ∷ []) ]

abbrev request : RunRequest
request = record {
  run_id = "run_1";
  chat_id = "chat_1";
  user_id = "demo-user";
  workspace_id = "ws_1";
  attempt_id = "attempt_b";
  skill_ids = [];
  skills = [];
  model_policy = "";
  skill_risk_policy = "";
}

-- Redis has two messages that another consumer holds, and the control plane refuses the claim.
abbrev outside : Outside
outside = record {
  sprint = λ j. "";
  parse_time = count_letters;
  marshal = λ v. some "{}";
  now = λ n. n;
  fresh_attempt = λ n. "attempt_b";
  has_engine = true;
  create_group = λ n. some "BUSYGROUP";
  read_group = λ n. queue_empty;
  auto_claim = λ n. some (message_of "1-0" ∷ message_of "2-0" ∷ []);
  pending = λ n id. deliveries_of id;
  add = λ n l. true;
  ack = λ n id. true;
  execution_context = λ n q.
      response 200
        (some (record { request = request; user_message = "hello"; control_plane_url = "" }));
  claim = λ n c. none;
}

abbrev quiet : Traffic
quiet = record { calls = 0; parked = []; acked = []; claims = []; executions = [] }

process_next-Parked_example : Parked quiet (process_next outside cfg quiet).1
unfolding process_next trim_space contains_text has_prefix lookup trim_right_slash ensure_group
    read_next_message auto_claim_pending claim_loop pending_retry_count park dead_letter
    dead_letter_of x_ack process_message process_run with_message execute_queued_run
    fetch_execution_context context_of filled_context claim_then_execute claim_of execute claimed_by
    decoded decode_queued_run value_of redis_value_string
process_next-Parked_example = process_next-Parked outside cfg refl quiet refl

read_next_message-IsSeldom_example :
    IsSeldom outside cfg (record (message_of "2-0") { delivery_count = 1 })
unfolding read_next_message auto_claim_pending claim_loop pending_retry_count park dead_letter
    trim_space x_ack
read_next_message-IsSeldom_example =
    read_next_message-IsSeldom outside cfg quiet
      {m = record (message_of "2-0") { delivery_count = 1 }} refl
