-- ===== src/Store/Steps.antt =====
-- Every method of the store that writes a table of the model, as one step, those on accounts, skills
-- and audit events in Steps/Accounts; what a reachable store satisfies is proved by
-- induction over the steps. A step takes the time, the drawn identifiers and the caller's arguments
-- as they come. Only the identifiers of a new run are assumed fresh, which `NewID` is made for.
pub mod Terminal
pub mod RunMoves
pub mod Consistent
pub mod Numbered
pub mod Growth
pub mod Accounts
use nice_agent.Prelude.{ℕ, String, Bool, ◌≡◌, none, lookup, ℤ}
use nice_agent.Protocol.Run.{RunStatus, RunUsage}
use nice_agent.Protocol.Chat.{Workspace, Artifact}
use nice_agent.Protocol.Event.{RunEventType, Payload}
use nice_agent.Store.{Store}
use nice_agent.Store.Chats.{
  NewIds, create_chat, set_chat_archived, add_user_message, add_assistant_message,
}
use nice_agent.Store.Runs.{claim_run_attempt, update_run_status, save_run_usage}
use nice_agent.Store.Events.{add_event, subscribe, cancel}
use nice_agent.Store.Steps.Accounts.{AccountStep}
use nice_agent.Store.Artifacts.{add_workspace, add_artifact, delete_expired_artifacts}

pub data Step (s : Store) : Store → Type 0 where
  create_chat_step :
      (now : ℕ) (new_id user_id project_id title : String)
      → Step s (create_chat now new_id user_id project_id title s).1
  set_chat_archived_step :
      (now : ℕ) (chat_id user_id : String) (archived : Bool)
      → Step s (set_chat_archived now chat_id user_id archived s).1
  add_user_message_step :
      (now : ℕ) (cut : String → String) (ids : NewIds) (chat_id user_id content : String)
      → lookup ids.run s.runs ≡ none
      → Step s (add_user_message now cut ids chat_id user_id content s).1
  add_assistant_message_step :
      (now : ℕ) (new_id chat_id run_id content : String)
      → Step s (add_assistant_message now new_id chat_id run_id content s).1
  claim_run_attempt_step :
      (now : ℕ) (run_id attempt_id claimed_by : String) (lease_expires_at : ℕ)
      → Step s (claim_run_attempt now run_id attempt_id claimed_by lease_expires_at s).1
  update_run_status_step :
      (now : ℕ) (run_id : String) (status : RunStatus) (err_message : String)
      → Step s (update_run_status now run_id status err_message s).1
  save_run_usage_step :
      (run_id : String) (usage : RunUsage) → Step s (save_run_usage run_id usage s).1
  add_event_step :
      (now : ℕ) (new_id run_id : String) (typ : RunEventType) (message : String) (payload : Payload)
      → Step s (add_event now new_id run_id typ message payload s).1
  subscribe_step : (ch : ℕ) (run_id : String) → Step s (subscribe ch run_id s)
  cancel_step : (ch : ℕ) (run_id : String) → Step s (cancel ch run_id s)
  add_workspace_step :
      (now : ℕ) (new_id : String) (workspace : Workspace)
      → Step s (add_workspace now new_id workspace s).1
  add_artifact_step :
      (now : ℕ) (new_id : String) (artifact : Artifact)
      → Step s (add_artifact now new_id artifact s).1
  delete_expired_artifacts_step :
      (clock at : ℕ) (limit : ℤ) → Step s (delete_expired_artifacts clock at limit s).1
  account_step : {t : Store} → AccountStep s t → Step s t

pub data Reach (s : Store) : Store → Type 0 where
  here : Reach s s
  next : {t u : Store} → Reach s t → Step t u → Reach s u
