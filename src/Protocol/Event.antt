-- ===== src/Protocol/Event.antt =====
-- packages/common/protocol/event.go
use nice_agent.Prelude.{ℕ, String}
use nice_agent.Protocol.Json.{Json}
use nice_agent.Protocol.Chat.{Artifact}

pub data RunEventType : Type 0 where
  run_queued run_started model_token tool_started tool_output tool_finished : RunEventType
  approval_needed artifact_created run_succeeded run_failed run_canceled : RunEventType

-- The values that the program passes as `payload any`.
pub data Payload : Type 0 where
  nothing : Payload
  artifact : Artifact → Payload
  json : Json → Payload

pub record RunEvent : Type 0 where
  pub id : String
  pub run_id : String
  pub chat_id : String
  pub seq : ℕ
  pub type : RunEventType
  pub message : String
  pub payload : Payload
  pub created_at : ℕ
