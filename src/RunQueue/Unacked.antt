-- ===== src/RunQueue/Unacked.antt =====
-- What a round of the worker of worker.go acknowledges: a run whose execution failed stays in the queue.
use nice_agent.Prelude.{
  String, Bool, none, some, ◌≡◌, refl, [], ◌∷◌, ◌++◌, arith, inl, inr, Option-cases, Bool-cases,
  ◌⊎◌,
}
use nice_agent.Protocol.Skill.{RunExecutionRequest}
use nice_agent.RunQueue.{
  Config, QueuedRun, RedisStreamMessage, DecodeError, Traffic, Outside, decode_queued_run,
}
use nice_agent.RunQueue.Reading.{
  Failure, Next, got, nothing_there, fails, x_ack, ensure_group, read_next_message,
}
use nice_agent.RunQueue.Parking.{
  Parked, Parked-trans, Parked-same, HasDeadLetters, read_next_message-Parked,
}
use nice_agent.RunQueue.Worker.{
  ExecuteError, execute_failed, fetch_execution_context, execute, claim_then_execute,
  execute_queued_run, with_message, process_run, process_message, process_next,
}

decode-cases :
    (a : DecodeError ⊎ QueuedRun)
    → ((e : DecodeError) × (a ≡ inl e)) ⊎ ((r : QueuedRun) × (a ≡ inr r))
decode-cases (inl e) = inl (e, refl)
decode-cases (inr r) = inr (r, refl)

next-cases :
    (n : Next)
    → ((m : RedisStreamMessage) × (r : Bool) × (n ≡ got m r))
      ⊎ ((n ≡ nothing_there) ⊎ ((f : Failure) × (n ≡ fails f)))
next-cases (got m r) = inl (m, r, refl)
next-cases nothing_there = inr (inl refl)
next-cases (fails f) = inr (inr (f, refl))

module _ (o : Outside) (cfg : Config) where
  claim_then_execute-Parked :
      (url : String) (execution : RunExecutionRequest) (t : Traffic)
      → Parked t (claim_then_execute o cfg url execution t).1
  unfolding claim_then_execute execute
  claim_then_execute-Parked url execution t = Parked-same (ground arith) (ground arith)

  -- Executing a run acknowledges and parks nothing.
  execute_queued_run-Parked :
      (queued : QueuedRun) (t : Traffic) → Parked t (execute_queued_run o cfg queued t).1
  unfolding execute_queued_run claim_then_execute execute fetch_execution_context
  execute_queued_run-Parked queued t = Parked-same (ground arith) (ground arith)

  -- A run that is not executed is not acknowledged.
  process_run-Parked :
      (m : RedisStreamMessage) (queued : QueuedRun) (t : Traffic) {e : ExecuteError}
      → (process_run o cfg m queued t).0 ≡ some (execute_failed e)
      → Parked t (process_run o cfg m queued t).1
  unfolding process_run
  process_run-Parked m queued t q = elim (Option-cases (execute_queued_run o cfg queued t).0) [
    | inl done ↦ absurd (ground arith)
    | inr (e, failed) ↦ rw (failed, process_run) (execute_queued_run-Parked queued t)
  ]

  process_message-Parked :
      (m : RedisStreamMessage) (r : Bool) (t : Traffic) {e : ExecuteError}
      → (process_message o cfg m r t).0 ≡ some (execute_failed e)
      → Parked t (process_message o cfg m r t).1
  unfolding process_message
  process_message-Parked m r t {e} q =
      elim (decode-cases (decode_queued_run o.sprint o.parse_time m.values)) [
        | inl (error, d) ↦ absurd (ground arith)
        | inr (queued, d) ↦
            rw (d, process_message)
              (process_run-Parked m (with_message o cfg m r (o.fresh_attempt t.calls) queued) t
                {e = e} (ground arith))
      ]

  ensure_group-Parked : (t : Traffic) → Parked t (ensure_group o cfg t).1
  unfolding ensure_group
  ensure_group-Parked t = Parked-same (ground arith) (ground arith)

  read-Parked :
      HasDeadLetters o cfg
      → (t : Traffic) → Parked t (read_next_message o cfg (ensure_group o cfg t).1).1
  read-Parked h t =
      Parked-trans (ensure_group-Parked t)
        (read_next_message-Parked o cfg h (ensure_group o cfg t).1)

  -- In a round that fails because a run could not be executed, exactly the messages that were parked in
  -- it are acknowledged, where the stream of dead letters is not blank: whatever Redis, the control plane
  -- and the engine answer, the run that failed stays in the queue, to be claimed again.
  pub process_next-Parked :
      HasDeadLetters o cfg
      → (t : Traffic) {e : ExecuteError} → (process_next o cfg t).0 ≡ some (execute_failed e)
      → Parked t (process_next o cfg t).1
  unfolding process_next
  process_next-Parked h t {e} q =
      let before = read-Parked h t in
      let t2 = (read_next_message o cfg (ensure_group o cfg t).1).1 in
      elim (Bool-cases (ensure_group o cfg t).0) [
        | inr no_group ↦ absurd (ground arith)
        | inl grouped ↦ elim (next-cases (read_next_message o cfg (ensure_group o cfg t).1).0) [
          | inl (m, r, read) ↦
              rw (grouped, read, process_next)
                (Parked-trans before (process_message-Parked m r t2 {e = e} (ground arith)))
          | inr other ↦ absurd (ground arith)
        ]
      ]

  process_run_done :
      (m : RedisStreamMessage) (queued : QueuedRun) (t : Traffic)
      → (process_run o cfg m queued t).0 ≡ none
      → (process_run o cfg m queued t).1.acked
        ≡ (execute_queued_run o cfg queued t).1.acked ++ m.id ∷ []
  unfolding process_run x_ack
  process_run_done m queued t q = ground arith
