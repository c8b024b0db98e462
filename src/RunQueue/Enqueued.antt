-- ===== src/RunQueue/Enqueued.antt =====
-- What the control plane writes to the queue (dispatch/queue.go) is what the worker (worker.go) reads.
use nice_agent.Prelude.{ℕ, String, Option, some, false, ◌≡◌, refl, inr, ◌==◌, lookup}
use nice_agent.Protocol.Json.{Json}
use nice_agent.Dispatch
use nice_agent.Dispatch.{encode_queued_run}
use nice_agent.RunQueue.{decode_queued_run, decoded, value_of, redis_value_string}

-- A run with an identifier that the control plane enqueues is decoded by the worker to the same run,
-- attempt and time, and so it is by the control plane's own reader: if a formatted time is not empty
-- and is parsed back, which holds of times with `time.RFC3339Nano`.
pub decode-encode :
    (sprint : Json → String) (format_time : ℕ → String) (parse_time : String → Option ℕ)
    (run : Dispatch.QueuedRun)
    → ((at : ℕ) → (format_time at == "") ≡ false)
    → ((at : ℕ) → parse_time (format_time at) ≡ some at)
    → (run.run_id == "") ≡ false
    → (decode_queued_run sprint parse_time (encode_queued_run format_time run)
        ≡ inr (decoded run.run_id run.attempt_id run.enqueued_at))
      × (Dispatch.decode_queued_run sprint parse_time (encode_queued_run format_time run) ≡ inr run)
unfolding decode_queued_run value_of redis_value_string Dispatch.decode_queued_run Dispatch.value_of
    Dispatch.redis_value_string encode_queued_run lookup
decode-encode sprint format_time parse_time run h k named = (
  rw (named, h run.enqueued_at, k run.enqueued_at) refl,
  rw (named, h run.enqueued_at, k run.enqueued_at) refl,
)
