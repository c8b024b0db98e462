-- ===== src/Server/Access.antt =====
-- The tests of server.go on who may read what.
use nice_agent.Prelude.{String, Bool, ◌&&◌, ◌||◌, not, false, ◌==◌, if◌then◌else◌, []}
use nice_agent.Protocol.Chat.{ChatSession, Artifact}
use nice_agent.Protocol.Audit.{ActorContext}
use nice_agent.Store.{Store, Result, ok, err, not_found}
use nice_agent.Store.Chats.{get_chat}
use nice_agent.Store.Runs.{get_run}
use nice_agent.Store.Artifacts.{get_artifact}
use nice_agent.Server.{Server, Draw, Request, audit_deny}

unfoldable pub actor_can_read_chat : ActorContext → ChatSession → Bool
actor_can_read_chat actor chat =
    chat.user_id == actor.user_id && chat.project_id == actor.project_id

unfoldable pub actor_can_read_chat_id : ActorContext → String → Store → Bool
actor_can_read_chat_id actor chat_id s = elim (get_chat chat_id s) [
  | err e ↦ false
  | ok (chat, msgs) ↦ actor_can_read_chat actor chat
]

unfoldable pub actor_can_read_run : ActorContext → String → Store → Bool
actor_can_read_run actor run_id s = elim (get_run run_id s) [
  | err e ↦ false
  | ok run ↦ run.user_id == actor.user_id && actor_can_read_chat_id actor run.chat_id s
]

unfoldable pub actor_can_read_artifact : ActorContext → Artifact → Store → Bool
actor_can_read_artifact actor artifact s =
    if not (artifact.user_id == "")
    then artifact.user_id == actor.user_id
      && (artifact.project_id == "" || artifact.project_id == actor.project_id)
    else if artifact.run_id == ""
    then false
    else actor_can_read_run actor artifact.run_id s

unfoldable pub read_authorized_artifact :
    Server → Draw → Request → String → Store → Result Artifact × Store
read_authorized_artifact server d r artifact_id s = elim (get_artifact d.now artifact_id s) [
  | err e ↦ (err e, s)
  | ok artifact ↦ if actor_can_read_artifact r.actor artifact s then (ok artifact, s) else (
    err not_found,
    audit_deny server d r
        (record {
          action = "artifact.read";
          resource_type = "artifact";
          resource_id = artifact_id;
          run_id = artifact.run_id;
        })
        "actor cannot read artifact" [] s,
  )
]
