-- ===== src/Store/Invocations.antt =====
-- The skill invocations and the audit events of store.go.
use nice_agent.Prelude.{
  ℕ, ◌-◌, ◌/◌, ℤ, String, Bool, ◌&&◌, ◌||◌, not, true, false, Option, none, some, List, [], ◌∷◌,
  ◌++◌, Map, Char, put, is_some, ltb, eqb, ◌==◌, pos_or, first_that, reverse_onto, if◌then◌else◌,
}
use nice_agent.Protocol.Json.{Json}
use nice_agent.Protocol.Audit.{
  AuditDecision, unset_decision, allow, AuditEvent, AuditEventInput, SkillInvocationStatus,
  unset_invocation, invocation_started, invocation_succeeded, invocation_failed,
  SkillInvocationRecord, SkillInvocationRecordInput, ActorContext, AuditEventListOptions,
  SkillInvocationListOptions,
}
use nice_agent.Platform.Redact.{redact_map}
use nice_agent.Store.{Store}

-- An input without a decision allows.
abbrev decision_or_allow : AuditDecision → AuditDecision
decision_or_allow unset_decision = allow
decision_or_allow decision = decision

abbrev status_or_started : SkillInvocationStatus → SkillInvocationStatus
status_or_started unset_invocation = invocation_started
status_or_started status = status

abbrev is_started : SkillInvocationStatus → Bool
is_started invocation_started = true
is_started status = false

-- The text of a status.
abbrev status_text : SkillInvocationStatus → String
status_text unset_invocation = ""
status_text invocation_started = "started"
status_text invocation_succeeded = "succeeded"
status_text invocation_failed = "failed"

module _ (lower : Char → Char) where
  unfoldable pub audit_event_from_input : ℕ → String → AuditEventInput → AuditEvent
  audit_event_from_input now new_id input = record {
    id = new_id;
    actor_user_id = input.actor_user_id;
    actor_project_id = input.actor_project_id;
    actor_org_id = input.actor_org_id;
    action = input.action;
    resource_type = input.resource_type;
    resource_id = input.resource_id;
    decision = decision_or_allow input.decision;
    reason = input.reason;
    request_id = input.request_id;
    trace_id = input.trace_id;
    run_id = input.run_id;
    ip = input.ip;
    user_agent = input.user_agent;
    metadata = redact_map lower input.metadata;
    created_at = now;
  }

  unfoldable pub add_audit_event : ℕ → String → AuditEventInput → Store → AuditEvent × Store
  add_audit_event now new_id input s =
      let event = audit_event_from_input now new_id input in
      (event, record s { audit_events = s.audit_events ++ event ∷ [] })

  unfoldable pub skill_invocation_from_input :
      ℕ → String → SkillInvocationRecordInput → SkillInvocationRecord
  skill_invocation_from_input now new_id input =
      let event_time = if eqb input.event_created_at 0 then now else input.event_created_at in
      let status = status_or_started input.status in
      record {
        id = new_id;
        run_id = input.run_id;
        chat_id = input.chat_id;
        user_id = input.user_id;
        project_id = input.project_id;
        skill_id = input.skill_id;
        tool_name = input.tool_name;
        status = status;
        decision = decision_or_allow input.decision;
        reason = input.reason;
        request_id = input.request_id;
        trace_id = input.trace_id;
        started_event_id = input.started_event_id;
        started_event_seq = input.started_event_seq;
        finished_event_id = input.finished_event_id;
        finished_event_seq = input.finished_event_seq;
        duration_ms = input.duration_ms;
        metadata = redact_map lower input.metadata;
        started_at = event_time;
        finished_at = if is_started status then none else some event_time;
        updated_at = now;
      }

  -- The entries of `next` over those of `base`.
  unfoldable pub merged : Map Json → Map Json → Map Json
  merged base [] = base
  merged base ((key, value) ∷ next) = merged (put key value base) next

  unfoldable pub merge_metadata : Map Json → Map Json → Map Json
  merge_metadata base next = redact_map lower (merged base next)

  -- The open record that a report of an end belongs to.
  unfoldable pub is_open_for : SkillInvocationRecord → SkillInvocationRecord → Bool
  is_open_for report current =
      current.run_id == report.run_id
      && current.skill_id == report.skill_id
      && not (is_some current.finished_at)
      && (report.tool_name == ""
          || current.tool_name == ""
          || report.tool_name == current.tool_name)

  -- The milliseconds from the start to the end, or none where the end lies before the start.
  abbrev duration_to : Option ℕ → ℕ → ℕ
  duration_to none started_at = 0
  duration_to (some finished_at) started_at = (finished_at - started_at) / 1000000

  unfoldable pub closed : SkillInvocationRecord → SkillInvocationRecord → SkillInvocationRecord
  closed report current = record current {
    status = report.status;
    decision = report.decision;
    reason = report.reason;
    finished_event_id = report.finished_event_id;
    finished_event_seq = report.finished_event_seq;
    duration_ms =
        if eqb report.duration_ms 0
        then duration_to report.finished_at current.started_at
        else report.duration_ms;
    finished_at = report.finished_at;
    updated_at = report.updated_at;
    metadata = merge_metadata current.metadata report.metadata;
  }

  -- The loop from the last record back: it closes the last one that is open for the report.
  unfoldable pub close_last :
      SkillInvocationRecord
      → List SkillInvocationRecord
      → Option (SkillInvocationRecord × List SkillInvocationRecord)
  close_last report [] = none
  close_last report (current ∷ records) = elim (close_last report records) [
    | some (record_closed, others) ↦ some (record_closed, current ∷ others)
    | none ↦
        if is_open_for report current
        then some (closed report current, closed report current ∷ records)
        else none
  ]

  unfoldable pub record_skill_invocation :
      ℕ → String → SkillInvocationRecordInput → Store → SkillInvocationRecord × Store
  record_skill_invocation now new_id input s =
      let report = skill_invocation_from_input now new_id input in
      let appended = record s { skill_invocations = s.skill_invocations ++ report ∷ [] } in
      if is_started report.status
      then (report, appended)
      else elim (close_last report s.skill_invocations) [
        | none ↦ (report, appended)
        | some (current, records) ↦ (current, record s { skill_invocations = records })
      ]

-- A filter that is empty lets everything pass.
abbrev passes : String → String → Bool
passes wanted value = wanted == "" || value == wanted

unfoldable pub skill_invocation_matches : SkillInvocationRecord → SkillInvocationListOptions → Bool
skill_invocation_matches r opts =
    passes opts.run_id r.run_id
    && passes opts.skill_id r.skill_id
    && passes opts.status (status_text r.status)

unfoldable pub audit_event_matches : AuditEvent → AuditEventListOptions → Bool
audit_event_matches event opts =
    passes opts.request_id event.request_id
    && passes opts.run_id event.run_id
    && passes opts.action event.action
    && passes opts.resource_id event.resource_id

-- A limit outside 1 to 100 is 100.
unfoldable pub limit_of : ℤ → ℕ
limit_of limit = let n = pos_or limit 100 in if ltb 100 n then 100 else n

unfoldable pub list_skill_invocations :
    ActorContext → SkillInvocationListOptions → Store → List SkillInvocationRecord
list_skill_invocations actor opts s =
    first_that (limit_of opts.limit)
      (λ r.
        r.user_id == actor.user_id
        && r.project_id == actor.project_id
        && skill_invocation_matches r opts)
      (reverse_onto s.skill_invocations [])

unfoldable pub list_audit_events : ActorContext → AuditEventListOptions → Store → List AuditEvent
list_audit_events actor opts s =
    first_that (limit_of opts.limit)
      (λ event.
        event.actor_user_id == actor.user_id
        && event.actor_project_id == actor.project_id
        && audit_event_matches event opts)
      (reverse_onto s.audit_events [])
