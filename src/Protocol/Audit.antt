-- ===== src/Protocol/Audit.antt =====
-- packages/common/protocol/audit.go and skill_invocation.go, with the actors and list options of
-- services/control-plane/internal/app/interfaces.go. Metadata is decoded JSON.
use nice_agent.Prelude.{ℕ, ℤ, String, Bool, Option, List, Map}
use nice_agent.Protocol.Json.{Json}

-- `unset_decision` is the empty text of an input.
pub data AuditDecision : Type 0 where
  unset_decision allow deny : AuditDecision

pub record AuditEvent : Type 0 where
  pub id : String
  pub actor_user_id : String
  pub actor_project_id : String
  pub actor_org_id : String
  pub action : String
  pub resource_type : String
  pub resource_id : String
  pub decision : AuditDecision
  pub reason : String
  pub request_id : String
  pub trace_id : String
  pub run_id : String
  pub ip : String
  pub user_agent : String
  pub metadata : Map Json
  pub created_at : ℕ

pub record AuditEventInput : Type 0 where
  pub actor_user_id : String
  pub actor_project_id : String
  pub actor_org_id : String
  pub action : String
  pub resource_type : String
  pub resource_id : String
  pub decision : AuditDecision
  pub reason : String
  pub request_id : String
  pub trace_id : String
  pub run_id : String
  pub ip : String
  pub user_agent : String
  pub metadata : Map Json

-- `unset_invocation` is the empty text of an input.
pub data SkillInvocationStatus : Type 0 where
  unset_invocation invocation_started invocation_succeeded invocation_failed : SkillInvocationStatus

pub record SkillInvocationRecord : Type 0 where
  pub id : String
  pub run_id : String
  pub chat_id : String
  pub user_id : String
  pub project_id : String
  pub skill_id : String
  pub tool_name : String
  pub status : SkillInvocationStatus
  pub decision : AuditDecision
  pub reason : String
  pub request_id : String
  pub trace_id : String
  pub started_event_id : String
  pub started_event_seq : ℕ
  pub finished_event_id : String
  pub finished_event_seq : ℕ
  pub duration_ms : ℕ
  pub metadata : Map Json
  pub started_at : ℕ
  pub finished_at : Option ℕ
  pub updated_at : ℕ

pub record SkillInvocationRecordInput : Type 0 where
  pub run_id : String
  pub chat_id : String
  pub user_id : String
  pub project_id : String
  pub skill_id : String
  pub tool_name : String
  pub status : SkillInvocationStatus
  pub decision : AuditDecision
  pub reason : String
  pub request_id : String
  pub trace_id : String
  pub started_event_id : String
  pub started_event_seq : ℕ
  pub finished_event_id : String
  pub finished_event_seq : ℕ
  pub duration_ms : ℕ
  pub metadata : Map Json
  pub event_created_at : ℕ

pub record ActorContext : Type 0 where
  pub user_id : String
  pub email : String
  pub name : String
  pub identity_provider : String
  pub identity_issuer : String
  pub identity_subject : String
  pub project_id : String
  pub org_id : String
  pub roles : List String

pub record AuditEventListOptions : Type 0 where
  pub limit : ℤ
  pub request_id : String
  pub run_id : String
  pub action : String
  pub resource_id : String

pub record SkillInvocationListOptions : Type 0 where
  pub limit : ℤ
  pub run_id : String
  pub skill_id : String
  pub status : String

pub record ChatListOptions : Type 0 where
  pub query : String
  pub include_archived : Bool
