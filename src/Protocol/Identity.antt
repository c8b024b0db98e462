-- ===== src/Protocol/Identity.antt =====
-- Users, identities, projects and members, from packages/common/protocol/identity.go, and the browser
-- session of services/control-plane/internal/app/interfaces.go. The zero time is 0.
use nice_agent.Prelude.{ℕ, String, Option}

pub record User : Type 0 where
  pub id : String
  pub email : String
  pub name : String
  pub status : String
  pub created_at : ℕ

abbrev pub zero_user : User
zero_user = record { id = ""; email = ""; name = ""; status = ""; created_at = 0 }

pub record UserIdentity : Type 0 where
  pub id : String
  pub user_id : String
  pub provider : String
  pub issuer : String
  pub subject : String
  pub email : String
  pub name : String
  pub created_at : ℕ
  pub updated_at : ℕ

pub record Project : Type 0 where
  pub id : String
  pub organization_id : String
  pub name : String
  pub created_at : ℕ

abbrev pub zero_project : Project
zero_project = record { id = ""; organization_id = ""; name = ""; created_at = 0 }

pub record OrganizationMember : Type 0 where
  pub id : String
  pub user_id : String
  pub organization_id : String
  pub role : String
  pub email : String
  pub name : String
  pub created_at : ℕ
  pub updated_at : ℕ

pub record OrganizationMemberInput : Type 0 where
  pub user_id : String
  pub email : String
  pub name : String
  pub role : String

pub record ProjectMember : Type 0 where
  pub id : String
  pub user_id : String
  pub project_id : String
  pub role : String
  pub email : String
  pub name : String
  pub created_at : ℕ
  pub updated_at : ℕ

pub record ProjectMemberInput : Type 0 where
  pub user_id : String
  pub email : String
  pub name : String
  pub role : String

pub record OidcBrowserSession : Type 0 where
  pub id : String
  pub user_id : String
  pub project_id : String
  pub refresh_token_hash : String
  pub created_at : ℕ
  pub updated_at : ℕ
  pub expires_at : ℕ
  pub revoked_at : Option ℕ
