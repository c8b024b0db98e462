-- ===== src/Quota.antt =====
-- The quota reservations of runs: services/control-plane/internal/quota/releasing_repository.go. The
-- repository that it wraps is the in-memory store. The limiter behind `ReleaseRun` is Redis; what it is
-- told is kept as a list. Its error is only logged.
pub mod Updates
pub mod Counters
pub mod Marker
pub mod Limiter
pub mod Named
pub mod Rollback
pub mod Reserved
pub mod Exact
pub mod Room
pub mod Released
pub mod Cycle
pub mod Whole
pub mod Refund
use nice_agent.Prelude.{ℕ, String, Bool, not, ◌&&◌, List, [], ◌∷◌, ◌++◌, ◌==◌, if◌then◌else◌}
use nice_agent.Protocol.Run.{
  Run, RunStatus, RunUsage, zero_run_usage, is_terminal_run_status, unset,
}
use nice_agent.Store.{Store, Result, ok, err}
use nice_agent.Store.Chats.{get_chat}
use nice_agent.Store.Runs.{get_run, update_run_status, get_run_usage}

-- A call of `Limiter.ReleaseRun`.
pub record Release : Type 0 where
  pub run : Run
  pub project_id : String
  pub usage : RunUsage

pub record Releasing : Type 0 where
  pub store : Store
  pub releases : List Release

-- `projectIDForRun`
unfoldable pub project_id_for_run : Run → Store → String
project_id_for_run run s = elim (get_chat run.chat_id s) [
  | err e ↦ ""
  | ok (chat, msgs) ↦ chat.project_id
]

-- The status of `before`, which is the zero run where `GetRun` fails.
abbrev pub status_before : Result Run → RunStatus
status_before (err e) = unset
status_before (ok run) = run.status

abbrev pub usage_or_zero : Result RunUsage → RunUsage
usage_or_zero (err e) = zero_run_usage
usage_or_zero (ok usage) = usage

-- The releases after an update that returned `run`.
unfoldable pub with_release : RunStatus → Run → Store → List Release → List Release
with_release before run s releases =
    if not (is_terminal_run_status before) && is_terminal_run_status run.status
    then (let project_id = project_id_for_run run s in
        if project_id == ""
        then releases
        else releases
          ++ record {
            run = run;
            project_id = project_id;
            usage = usage_or_zero (get_run_usage run.id s);
          }
            ∷ [])
    else releases

-- `UpdateRunStatus` of the wrapper. Its calls of the repository and of the limiter are not under one
-- lock; here no other call comes between them.
unfoldable pub releasing_update :
    ℕ → String → RunStatus → String → Releasing → Result Run × Releasing
releasing_update now run_id status err_message w =
    let before = status_before (get_run run_id w.store) in
    let (result, s) = update_run_status now run_id status err_message w.store in
    elim result [
      | err e ↦ (err e, record w { store = s })
      | ok run ↦ (ok run, record { store = s; releases = with_release before run s w.releases })
    ]
