-- ===== src/Protocol/Invitation.antt =====
-- Invitations and their e-mails, from packages/common/protocol/identity.go.
use nice_agent.Prelude.{ℕ, String, Option, ℤ}
use nice_agent.Protocol.Json.{Fields}

pub data InvitationStatus : Type 0 where
  pending accepted expired : InvitationStatus

pub record Invitation : Type 0 where
  pub id : String
  pub token : String
  pub organization_id : String
  pub project_id : String
  pub email : String
  pub role : String
  pub status : InvitationStatus
  pub invited_by_user_id : String
  pub accepted_by_user_id : String
  pub created_at : ℕ
  pub expires_at : ℕ
  pub accepted_at : Option ℕ

pub record InvitationInput : Type 0 where
  pub email : String
  pub role : String
  pub project_id : String
  pub expires_in_hours : ℤ

pub data InvitationEmailDeliveryStatus : Type 0 where
  email_pending email_sending email_sent email_failed email_bounced : InvitationEmailDeliveryStatus

pub record InvitationEmailDelivery : Type 0 where
  pub id : String
  pub invitation_id : String
  pub invitation : Invitation
  pub status : InvitationEmailDeliveryStatus
  pub attempts : ℕ
  pub max_attempts : ℕ
  pub next_attempt_at : ℕ
  pub locked_by : String
  pub locked_until : Option ℕ
  pub last_error : String
  pub sent_at : Option ℕ
  pub created_at : ℕ
  pub updated_at : ℕ

pub data InvitationEmailEventType : Type 0 where
  delivered bounced complaint dropped : InvitationEmailEventType

-- `string(eventType)`
abbrev pub event_type_text : InvitationEmailEventType → String
event_type_text delivered = "delivered"
event_type_text bounced = "bounced"
event_type_text complaint = "complaint"
event_type_text dropped = "dropped"

pub record InvitationEmailEventInput : Type 0 where
  pub invitation_id : String
  pub delivery_id : String
  pub provider : String
  pub provider_message_id : String
  pub type : String
  pub reason : String
  pub payload : Fields
  pub occurred_at : Option ℕ

pub record InvitationEmailEvent : Type 0 where
  pub id : String
  pub invitation_id : String
  pub delivery_id : String
  pub provider : String
  pub provider_message_id : String
  pub type : InvitationEmailEventType
  pub reason : String
  pub payload : Fields
  pub occurred_at : ℕ
  pub created_at : ℕ

pub record InvitationEmailSuppression : Type 0 where
  pub id : String
  pub organization_id : String
  pub email : String
  pub reason : String
  pub source_event_id : String
  pub provider : String
  pub provider_message_id : String
  pub created_at : ℕ
  pub updated_at : ℕ

-- `InvitationEmailEventListOptions` of app/interfaces.go
pub record InvitationEmailEventListOptions : Type 0 where
  pub invitation_id : String
  pub delivery_id : String
  pub limit : ℤ
