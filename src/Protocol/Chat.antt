-- ===== src/Protocol/Chat.antt =====
-- packages/common/protocol/chat.go, and the workspaces and artifacts of workspace.go.
use nice_agent.Prelude.{ℕ, String, Bool, Option}

pub record ChatSession : Type 0 where
  pub id : String
  pub user_id : String
  pub project_id : String
  pub title : String
  pub archived : Bool
  pub last_run_id : String
  pub created_at : ℕ
  pub updated_at : ℕ
  pub message_count : ℕ

pub data MessageRole : Type 0 where
  system user assistant tool : MessageRole

pub record Message : Type 0 where
  pub id : String
  pub chat_id : String
  pub run_id : String
  pub role : MessageRole
  pub content : String
  pub created_at : ℕ

pub record Workspace : Type 0 where
  pub id : String
  pub user_id : String
  pub project_id : String
  pub chat_id : String
  pub run_id : String
  pub root_path : String
  pub created_at : ℕ

pub record Artifact : Type 0 where
  pub id : String
  pub run_id : String
  pub chat_id : String
  pub user_id : String
  pub project_id : String
  pub workspace_id : String
  pub path : String
  pub name : String
  pub mime_type : String
  pub size_bytes : ℕ
  pub sha256 : String
  pub storage_backend : String
  pub storage_key : String
  pub created_at : ℕ
  pub expires_at : Option ℕ
  pub deleted_at : Option ℕ
