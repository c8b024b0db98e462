-- ===== src/Sink.antt =====
-- `RepositorySink` of services/control-plane/internal/app/runs.go: how the reports of a runtime change
-- the repository. The repository is the in-memory store. A method is a chain of calls to it, each of
-- which reads the clock and draws an identifier; an error ends the chain, and what was written before
-- it stays.
pub mod Calls
pub mod Outcome
use nice_agent.Prelude.{
  ℕ, ◌+◌, String, Bool, ◌&&◌, not, true, false, Option, none, some, List, [], ◌∷◌, ◌++◌, ◌==◌,
  if◌then◌else◌,
}
use nice_agent.Protocol.Run.{
  Run, RunUsage, RunStatus, succeeded, failed, canceled, eq_status, is_terminal_run_status,
}
use nice_agent.Protocol.Chat.{Artifact}
use nice_agent.Protocol.Event.{
  RunEvent, RunEventType, artifact_created, run_succeeded, run_failed, Payload, nothing, artifact,
}
use nice_agent.Store.{Store, Error, not_found, Result, ok, err}
use nice_agent.Store.Chats.{add_assistant_message}
use nice_agent.Store.Runs.{get_run, update_run_status, save_run_usage}
use nice_agent.Store.Events.{add_event}
use nice_agent.Store.Artifacts.{get_artifact, add_artifact}
use nice_agent.Sink.Calls.{Outside, World, Chain, pure, call, ◌>>=◌, ◌>>◌}

-- `nonEmpty(value, fallback)`
abbrev pub non_empty : String → String → String
non_empty value fallback = if value == "" then fallback else value

-- `existing, err := s.Repo.GetArtifact(id); err == nil && existing.RunID == run.ID`
abbrev pub known : Run → Result Artifact → Option Artifact
known run (err e) = none
known run (ok existing) = if existing.run_id == run.id then some existing else none

module _ (o : Outside) where
  pub emit : String → RunEventType → String → Payload → Chain (Unit {0})
  emit run_id typ message payload = do
    _ ← call o (λ now id. add_event now id run_id typ message payload)
    pure tt

  -- The artifact that the loop looks up first, where it brings an identifier.
  unfoldable pub existing_artifact : Run → Artifact → Chain (Option Artifact)
  existing_artifact run a =
      if a.id == ""
      then pure none
      else call o (λ now _ s. (ok (known run (get_artifact now a.id s)), s))

  unfoldable pub save_artifact : String → Run → Artifact → Chain Artifact
  save_artifact run_id run a = do
    let filled : Artifact = record a {
      run_id = non_empty a.run_id run.id;
      chat_id = non_empty a.chat_id run.chat_id;
      user_id = non_empty a.user_id run.user_id;
      workspace_id = non_empty a.workspace_id run.workspace_id;
    }
    saved ← call o (λ now id. add_artifact now id filled)
    _ ←
        call o
          (λ now id. add_event now id run_id artifact_created "Artifact created." (artifact saved))
    pure saved

  unfoldable pub saved_or_known : String → Run → Artifact → Option Artifact → Chain Artifact
  saved_or_known run_id run a none = save_artifact run_id run a
  saved_or_known run_id run a (some existing) = pure existing

  -- The loop over the artifacts.
  unfoldable pub register_all : String → Run → List Artifact → Chain (List Artifact)
  register_all run_id run [] = pure []
  register_all run_id run (a ∷ artifacts) = do
    existing ← existing_artifact run a
    saved ← saved_or_known run_id run a existing
    rest ← register_all run_id run artifacts
    pure (saved ∷ rest)

  unfoldable pub register_artifacts : String → List Artifact → Chain (List Artifact)
  register_artifacts run_id artifacts = do
    run ← call o (λ _ _ s. (get_run run_id s, s))
    if is_terminal_run_status run.status then pure [] else register_all run_id run artifacts

  -- `if len(artifacts) > 0`
  unfoldable pub register_some : String → List Artifact → Chain (Unit {0})
  register_some run_id [] = pure tt
  register_some run_id (a ∷ artifacts) = do _ ← register_artifacts run_id (a ∷ artifacts); pure tt

  -- What `Complete` does once the artifacts are registered.
  unfoldable pub finish : String → String → Run → Chain (Unit {0})
  finish run_id content run = do
    _ ← call o (λ now id. add_assistant_message now id run.chat_id run_id content)
    _ ← call o (λ now _. update_run_status now run_id succeeded "")
    _ ← call o (λ now id. add_event now id run_id run_succeeded "Run completed." nothing)
    pure tt

  unfoldable pub complete : String → String → List Artifact → Chain (Unit {0})
  complete run_id content artifacts = do
    run ← call o (λ _ _ s. (get_run run_id s, s))
    if is_terminal_run_status run.status
        then pure tt
        else do register_some run_id artifacts; finish run_id content run

  unfoldable pub complete_with_usage : String → String → RunUsage → List Artifact → Chain (Unit {0})
  complete_with_usage run_id content usage artifacts = do
    run ← call o (λ _ _ s. (get_run run_id s, s))
    if is_terminal_run_status run.status
        then pure tt
        else do _ ← call o (λ _ _. save_run_usage run_id usage); complete run_id content artifacts

  unfoldable pub fail : String → String → Chain (Unit {0})
  fail run_id message = do
    run ← call o (λ _ _ s. (get_run run_id s, s))
    if is_terminal_run_status run.status then pure tt else do
      _ ← call o (λ now _. update_run_status now run_id failed message)
      _ ← call o (λ now id. add_event now id run_id run_failed message nothing)
      pure tt

abbrev canceled_in : Result Run → Bool
canceled_in (err e) = false
canceled_in (ok run) = eq_status run.status canceled

unfoldable pub is_canceled : String → Store → Bool
is_canceled run_id s = canceled_in (get_run run_id s)
