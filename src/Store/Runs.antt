-- ===== src/Store/Runs.antt =====
-- The run methods of store.go: the life of a run, its attempts and leases, its usage and the counts
-- behind the quotas.

pub mod Lease
use nice_agent.Prelude.{
  ℕ, suc, ◌+◌, String, Bool, true, false, not, ◌&&◌, ◌||◌, Option, none, some, List, [], ◌∷◌, Map,
  lookup, put, value_or, ltb, ◌==◌, if◌then◌else◌,
}
use nice_agent.Protocol.Run.{
  Run, RunStatus, running, succeeded, failed, canceled, eq_status, is_terminal_run_status,
  is_active_run_status, RunUsage, zero_run_usage, normalize_run_usage,
}
use nice_agent.Protocol.Chat.{ChatSession}
use nice_agent.Store.{Store, Result, ok, err, not_found, attempt_mismatch}

unfoldable pub get_run : String → Store → Result Run
get_run run_id s = elim (lookup run_id s.runs) [
  | none ↦ err not_found
  | some run ↦ ok (record run { usage = value_or zero_run_usage (lookup run_id s.run_usage) })
]

-- `run.LeaseExpiresAt == nil || run.LeaseExpiresAt.After(now)`
abbrev pub lease_holds : ℕ → Option ℕ → Bool
lease_holds now none = true
lease_holds now (some expires) = ltb now expires

-- `if t == nil { t = &now }`
abbrev pub or_now : ℕ → Option ℕ → Option ℕ
or_now now none = some now
or_now now (some t) = some t

-- The run after an attempt has claimed it.
unfoldable pub claimed_run : ℕ → String → String → ℕ → Run → Run
claimed_run now attempt_id claimed_by lease_expires_at run = record run {
  attempt_id = attempt_id;
  claimed_by = claimed_by;
  lease_expires_at = some lease_expires_at;
  attempt_count = if run.attempt_id == attempt_id then run.attempt_count else run.attempt_count + 1;
  status = running;
  started_at = or_now now run.started_at;
  updated_at = now;
}

claim_found : ℕ → String → String → String → ℕ → Run → Store → Result Run × Store
claim_found now run_id attempt_id claimed_by lease_expires_at run s =
    if is_terminal_run_status run.status
    then (ok run, s)
    else if attempt_id == ""
    then (err attempt_mismatch, s)
    else if not (run.attempt_id == "")
        && not (run.attempt_id == attempt_id)
        && lease_holds now run.lease_expires_at
    then (err attempt_mismatch, s)
    else (let run' = claimed_run now attempt_id claimed_by lease_expires_at run in
        (ok run', record s { runs = put run_id run' s.runs }))

unfoldable pub claim_run_attempt : ℕ → String → String → String → ℕ → Store → Result Run × Store
unfolding claim_found
claim_run_attempt now run_id attempt_id claimed_by lease_expires_at s =
    elim (lookup run_id s.runs) [
      | none ↦ (err not_found, s)
      | some run ↦ claim_found now run_id attempt_id claimed_by lease_expires_at run s
    ]

unfoldable pub check_run_attempt : String → String → Store → Result Run
check_run_attempt run_id attempt_id s = elim (lookup run_id s.runs) [
  | none ↦ err not_found
  | some run ↦
      if run.attempt_id == ""
      then if attempt_id == "" then ok run else err attempt_mismatch
      else if attempt_id == run.attempt_id
      then ok run
      else err attempt_mismatch
]

-- The run after its status is set.
unfoldable pub with_status : ℕ → RunStatus → String → Run → Run
with_status now status err_message run = record run {
  started_at = if eq_status status running then or_now now run.started_at else run.started_at;
  finished_at =
      if eq_status status succeeded || eq_status status failed || eq_status status canceled
      then some now
      else run.finished_at;
  status = status;
  error = err_message;
  updated_at = now;
}

unfoldable pub update_run_status : ℕ → String → RunStatus → String → Store → Result Run × Store
update_run_status now run_id status err_message s = elim (lookup run_id s.runs) [
  | none ↦ (err not_found, s)
  | some run ↦
      if is_terminal_run_status run.status && not (eq_status run.status status)
      then (ok run, s)
      else (let run' = with_status now status err_message run in
          (ok run', record s { runs = put run_id run' s.runs }))
]

unfoldable pub save_run_usage : String → RunUsage → Store → Result RunUsage × Store
save_run_usage run_id usage s = elim (lookup run_id s.runs) [
  | none ↦ (err not_found, s)
  | some run ↦
      let usage' = normalize_run_usage usage in
      (
        ok usage',
        record s {
          run_usage = put run_id usage' s.run_usage;
          runs = put run_id (record run { usage = usage' }) s.runs;
        },
      )
]

unfoldable pub get_run_usage : String → Store → Result RunUsage
get_run_usage run_id s = elim (lookup run_id s.runs) [
  | none ↦ err not_found
  | some _ ↦ ok (value_or zero_run_usage (lookup run_id s.run_usage))
]

-- `chat, ok := s.chats[chatID]; ok && chat.ProjectID == projectID`
abbrev in_project : String → Option ChatSession → Bool
in_project project_id none = false
in_project project_id (some chat) = chat.project_id == project_id

-- A loop over all runs that counts those which pass the test.
count_if : (Run → Bool) → Map Run → ℕ
count_if p [] = 0
count_if p ((_, run) ∷ runs) = let n = count_if p runs in if p run then suc n else n

unfoldable pub count_active_runs : String → String → Store → ℕ
unfolding count_if
count_active_runs user_id project_id s =
    count_if
      (λ run.
        run.user_id == user_id
        && is_active_run_status run.status
        && in_project project_id (lookup run.chat_id s.chats))
      s.runs

unfoldable pub count_runs_created_since : String → String → ℕ → Store → ℕ
unfolding count_if
count_runs_created_since user_id project_id since s =
    count_if
      (λ run.
        run.user_id == user_id
        && not (ltb run.created_at since)
        && in_project project_id (lookup run.chat_id s.chats))
      s.runs
