-- ===== src/Server.antt =====
-- services/control-plane/internal/httpapi/server.go: what the handlers share. A request comes with its
-- actor, and with the parts of its path and its body decoded; an answer is a status and the value that
-- is written as JSON. Requests are handled over the in-memory repository.
pub mod Access
pub mod Chats
pub mod Runs
pub mod Limits
pub mod Reserving
pub mod Messages
pub mod Costless
pub mod Unaccepted
pub mod Uncharged
pub mod Unspent
pub mod Admitted
pub mod Private
use nice_agent.Prelude.{ℕ, String, Bool, true, false, List, [], ◌∷◌, ◌++◌, Map, Char, if◌then◌else◌}
use nice_agent.Protocol.Json.{Json, str, arr, Items, nil, cons}
use nice_agent.Protocol.Chat.{ChatSession, Message, Artifact}
use nice_agent.Protocol.Run.{Run}
use nice_agent.Protocol.Event.{RunEvent}
use nice_agent.Protocol.Audit.{
  ActorContext, AuditDecision, allow, deny, AuditEvent, AuditEventInput, ChatListOptions,
}
use nice_agent.ActionPolicy.{ActionRequirement, write, authorize}
use nice_agent.Store.{
  Store, Error, not_found, attempt_mismatch, invalid_input, identity_conflict, invalid_skill,
}
use nice_agent.Store.Invocations.{add_audit_event}

pub data Method : Type 0 where
  get post other_method : Method

-- `title` is the title in the body, empty where the body is not JSON; `list_options` are those of the query.
pub record Request : Type 0 where
  pub actor : ActorContext
  pub method : Method
  pub parts : List String
  pub title : String
  pub list_options : ChatListOptions
  pub request_id : String
  pub trace_id : String
  pub ip : String
  pub user_agent : String

-- The values that an answer carries. `event_stream` opens the stream of the events of a run.
pub data Body : Type 0 where
  error_message : String → Body
  chat_list : List ChatSession → Body
  one_chat : ChatSession → Body
  chat_messages : ChatSession → List Message → Body
  one_run : Run → Body
  event_stream : String → Body
  artifact_list : List Artifact → Body
  one_artifact : Artifact → Body
  accepted : Message → Run → Body

pub record Response : Type 0 where
  pub status : ℕ
  pub body : Body

abbrev pub write_error : ℕ → String → Response
write_error status message = record { status = status; body = error_message message }

abbrev pub write_json : ℕ → Body → Response
write_json status body = record { status = status; body = body }

-- What a handler draws: the clock and the identifiers of the calls, and those of its audit event.
pub record Draw : Type 0 where
  pub now : ℕ
  pub new_id : String
  pub event_now : ℕ
  pub event_id : String
  pub audit_now : ℕ
  pub audit_id : String

-- The server: its tables of characters and its action policy.
pub record Server : Type 0 where
  pub lower : Char → Char
  pub policy : Map ActionRequirement

unfoldable pub write_store_err : Error → Response
write_store_err invalid_input = write_error 400 "invalid input"
write_store_err not_found = write_error 404 "not found"
write_store_err attempt_mismatch = write_error 409 "run attempt mismatch"
write_store_err identity_conflict = write_error 409 "identity binding conflict"
write_store_err (invalid_skill e) = write_error 500 "invalid skill"

abbrev pub string_items : List String → Items
string_items [] = nil
string_items (s ∷ ss) = cons (str s) (string_items ss)

-- What an audit event is about.
pub record Subject : Type 0 where
  pub action : String
  pub resource_type : String
  pub resource_id : String
  pub run_id : String

-- `writeAuditEvent`
unfoldable pub write_audit_event :
    Server → Draw → Request → Subject → AuditDecision → String → Map Json → Store → Store
write_audit_event server d r about decision reason metadata s =
    (add_audit_event server.lower d.audit_now d.audit_id
      (record {
        actor_user_id = r.actor.user_id;
        actor_project_id = r.actor.project_id;
        actor_org_id = r.actor.org_id;
        action = about.action;
        resource_type = about.resource_type;
        resource_id = about.resource_id;
        decision = decision;
        reason = reason;
        request_id = r.request_id;
        trace_id = r.trace_id;
        run_id = about.run_id;
        ip = r.ip;
        user_agent = r.user_agent;
        metadata = metadata;
      })
      s).1

abbrev pub audit_allow : Server → Draw → Request → Subject → Map Json → Store → Store
audit_allow server d r about metadata s = write_audit_event server d r about allow "" metadata s

abbrev pub audit_deny : Server → Draw → Request → Subject → String → Map Json → Store → Store
audit_deny server d r about reason metadata s =
    write_audit_event server d r about deny reason metadata s

-- The metadata of a role that is not enough.
abbrev pub role_metadata : List String → List String → Map Json
role_metadata roles required =
    ("roles", arr (string_items roles)) ∷ ("required_roles", arr (string_items required)) ∷ []

-- `requireAction` in front of a handler: the handler runs only where the policy allows the action.
unfoldable pub require_action :
    Server
    → Draw
    → Request
    → Subject
    → ActionRequirement
    → (Store → Response × Store)
    → Store
    → Response × Store
require_action server d r about fallback handler s =
    let decision = authorize server.lower server.policy r.actor about.action fallback in
    if decision.allowed then handler s else (
      write_error 403 decision.message,
      audit_deny server d r about decision.reason
          (role_metadata r.actor.roles decision.required_roles) s,
    )
