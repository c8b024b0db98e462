-- ===== src/RunQueue/Worker.antt =====
-- How the worker of worker.go executes a run, and its loop.
use nice_agent.Prelude.{
  is_positive, ℕ, zero, suc, String, Bool, ◌||◌, true, false, not, Option, none, some, List, [],
  ◌∷◌, ◌++◌, ◌==◌, inl, inr, or_else, ltb, leb, trim_right_slash, if◌then◌else◌,
}
use nice_agent.Protocol.Run.{RunStatus, is_terminal_run_status}
use nice_agent.Protocol.Skill.{RunExecutionRequest}
use nice_agent.RunQueue.{
  Config, QueuedRun, RedisStreamMessage, DecodeError, Claim, Execution, Traffic, HttpAnswer,
  no_answer, response, Outside, called, claimed_by, decode_queued_run,
}
use nice_agent.RunQueue.Reading.{
  Failure, group_failed, ack_failed, got, nothing_there, fails, ensure_group, dead_letter, x_ack,
  read_next_message,
}

pub data ExecuteError : Type 0 where
  engine_is_nil control_plane_url_required context_failed claim_failed : ExecuteError

-- The error of `ProcessNext`.
pub data ProcessError : Type 0 where
  redis_failed : Failure → ProcessError
  decode_failed : DecodeError → ProcessError
  execute_failed : ExecuteError → ProcessError

-- The values of the context that the control plane left empty.
unfoldable pub filled_context : QueuedRun → String → RunExecutionRequest → RunExecutionRequest
filled_context queued base_url execution = record execution {
  request = record execution.request {
    run_id = or_else execution.request.run_id queued.run_id;
    attempt_id = or_else execution.request.attempt_id queued.attempt_id;
  };
  control_plane_url = or_else execution.control_plane_url base_url;
}

-- A response in the range of success whose body decodes.
unfoldable pub context_of : QueuedRun → String → HttpAnswer → Option RunExecutionRequest
context_of queued base_url no_answer = none
context_of queued base_url (response status none) = none
context_of queued base_url (response status (some execution)) =
    if ltb status 200 || leb 300 status
    then none
    else some (filled_context queued base_url execution)

-- One beat of the lease: whether it cancels the execution.
unfoldable pub beat : Option RunStatus → Bool
beat none = true
beat (some status) = is_terminal_run_status status

-- The goroutine of `startLeaseHeartbeat`, over the answers of the ticks: how many claims it makes, and
-- whether it has canceled the execution.
unfoldable pub heartbeat : List (Option RunStatus) → ℕ × Bool
heartbeat [] = (0, false)
heartbeat (answer ∷ answers) =
    let (claims, canceled) = heartbeat answers in
    if beat answer then (1, true) else (suc claims, canceled)

-- `startLeaseHeartbeat`, over the answers that it gets until it is stopped.
unfoldable pub start_lease_heartbeat : Config → String → List (Option RunStatus) → ℕ × Bool
start_lease_heartbeat cfg attempt_id answers =
    if attempt_id == "" || not (is_positive cfg.heartbeat_interval)
    then (0, false)
    else heartbeat answers

module _ (o : Outside) (cfg : Config) where
  -- `fetchExecutionContext`
  unfoldable pub fetch_execution_context :
      QueuedRun → Traffic → Option RunExecutionRequest × Traffic
  fetch_execution_context queued t =
      let base_url = trim_right_slash cfg.control_plane_url in
      if base_url == ""
      then (none, t)
      else (context_of queued base_url (o.execution_context t.calls queued), called t)

  abbrev execution_of : String → RunExecutionRequest → Execution
  execution_of url execution = record {
    request = execution.request;
    user_message = execution.user_message;
    base_url = url;
  }

  -- `engine.Execute`, whose reports go to the control plane.
  unfoldable pub execute : String → RunExecutionRequest → Traffic → Option ExecuteError × Traffic
  execute url execution t =
      (none, record (called t) { executions = t.executions ++ execution_of url execution ∷ [] })

  unfoldable pub claim_of : String → RunExecutionRequest → Claim
  claim_of url execution = record {
    base_url = trim_right_slash url;
    run_id = execution.request.run_id;
    attempt_id = execution.request.attempt_id;
    claimed_by = claimed_by cfg;
    lease_seconds = cfg.lease_seconds;
  }

  -- The claim before the execution. A run that has finished is not executed again.
  unfoldable pub claim_then_execute :
      String → RunExecutionRequest → Traffic → Option ExecuteError × Traffic
  claim_then_execute url execution t =
      let claim = claim_of url execution in
      let t1 = record (called t) { claims = t.claims ++ claim ∷ [] } in
      if execution.request.attempt_id == ""
      then execute url execution t
      else elim (o.claim t.calls claim) [
        | none ↦ (some claim_failed, t1)
        | some status ↦
            if is_terminal_run_status status then (none, t1) else execute url execution t1
      ]

  -- `executeQueuedRun`: its error, if any.
  unfoldable pub execute_queued_run : QueuedRun → Traffic → Option ExecuteError × Traffic
  execute_queued_run queued t =
      let (context, t1) = fetch_execution_context queued t in
      if o.has_engine
      then elim context [
        | none ↦ (some context_failed, t1)
        | some execution ↦
            let url =
              or_else (trim_right_slash execution.control_plane_url) cfg.control_plane_url in
            if url == ""
            then (some control_plane_url_required, t1)
            else claim_then_execute url execution t1
      ]
      else (some engine_is_nil, t)

  -- The run of a message. One that was claimed from another consumer gets a new attempt.
  unfoldable pub with_message : RedisStreamMessage → Bool → String → QueuedRun → QueuedRun
  with_message m reclaimed new_attempt queued =
      if reclaimed
      then record queued {
        message_id = m.id;
        reclaimed = true;
        previous_attempt_id = queued.attempt_id;
        attempt_id = new_attempt;
      }
      else record queued { message_id = m.id; reclaimed = false }

  -- `ProcessNext` for a run that was decoded: it is acknowledged only after its execution.
  unfoldable pub process_run :
      RedisStreamMessage → QueuedRun → Traffic → Option ProcessError × Traffic
  process_run m queued t =
      let (error, t1) = execute_queued_run queued t in
      let (acked, t2) = x_ack o cfg m.id t1 in
      elim error [
        | some e ↦ (some (execute_failed e), t1)
        | none ↦ (if acked then none else some (redis_failed ack_failed), t2)
      ]

  -- `ProcessNext` for a message that was read.
  unfoldable pub process_message :
      RedisStreamMessage → Bool → Traffic → Option ProcessError × Traffic
  process_message m reclaimed t = elim (decode_queued_run o.sprint o.parse_time m.values) [
    | inl e ↦
        let (_, t1) = dead_letter o cfg m "decode_failed" 0 (some e) t in
        (some (decode_failed e), (x_ack o cfg m.id t1).1)
    | inr queued ↦ process_run m (with_message m reclaimed (o.fresh_attempt t.calls) queued) t
  ]

  -- `ProcessNext`
  unfoldable pub process_next : Traffic → Option ProcessError × Traffic
  process_next t =
      let (grouped, t1) = ensure_group o cfg t in
      let (next, t2) = read_next_message o cfg t1 in
      if grouped
      then elim next [
        | nothing_there ↦ (none, t2)
        | fails f ↦ (some (redis_failed f), t2)
        | got m reclaimed ↦ process_message m reclaimed t2
      ]
      else (some (redis_failed group_failed), t1)

  -- The loop of `Run`, for `n` rounds: an error only delays the next round.
  unfoldable pub run_rounds : ℕ → Traffic → Traffic
  run_rounds zero t = t
  run_rounds (suc n) t = run_rounds n (process_next t).1
