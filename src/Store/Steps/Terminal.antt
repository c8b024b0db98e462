-- ===== src/Store/Steps/Terminal.antt =====
-- A finished run stays finished, with the status it has.
use nice_agent.Prelude.{String, ◌≡◌, true, Option, none, some, lookup, lookup-put, arith, eq_iff}
use nice_agent.Protocol.Run.{RunStatus, is_terminal_run_status}
use nice_agent.Store.{Store}
use nice_agent.Store.Steps.Accounts.{AccountStep-SameRuns}
use nice_agent.Store.Chats.{
  new_run, create_chat, set_chat_archived, add_user_message, add_assistant_message,
}
use nice_agent.Store.Runs.{
  claimed_run, with_status, claim_run_attempt, update_run_status, save_run_usage,
}
use nice_agent.Store.Events.{add_event, subscribe, cancel}
use nice_agent.Store.Artifacts.{add_workspace, add_artifact, delete_expired_artifacts}
use nice_agent.Store.Steps.{
  Step, create_chat_step, add_user_message_step, account_step, Reach, here, next,
}

abbrev pub status_of : Store → String → Option RunStatus
status_of s id = elim (lookup id s.runs) [ none ↦ none | some run ↦ some run.status ]

Step-status_of :
    {s t : Store} {st : RunStatus} (id : String)
    → Step s t
    → is_terminal_run_status st ≡ true
    → status_of s id ≡ some st
    → status_of t id ≡ some st
unfolding create_chat set_chat_archived new_run add_user_message add_assistant_message claimed_run
    claim_run_attempt with_status update_run_status save_run_usage add_event subscribe cancel
    add_workspace add_artifact delete_expired_artifacts
Step-status_of id (create_chat_step now new_id user_id project_id title) h e = e
Step-status_of id (add_user_message_step now cut ids chat_id user_id content fresh) h e =
    grind (arith, lookup-put, eq_iff)
Step-status_of id (account_step a) h e = rw (AccountStep-SameRuns a).runs e
Step-status_of id _ h e = grind (arith, lookup-put, eq_iff)

-- Whatever the store does, a run that has succeeded, failed or been canceled keeps that status.
pub Reach-terminal :
    {s t : Store} {st : RunStatus} (id : String)
    → Reach s t
    → is_terminal_run_status st ≡ true
    → status_of s id ≡ some st
    → status_of t id ≡ some st
Reach-terminal id here h e = e
Reach-terminal id (next r step) h e = Step-status_of id step h (Reach-terminal id r h e)
