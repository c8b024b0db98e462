-- ===== src/Store.antt =====
-- The in-memory repository of the control plane: the state of `Store` in
-- services/control-plane/internal/repository/store.go, and the errors of its methods. The mutex makes
-- every method one step, so a method is a function of the store. What it reads from the outside, the
-- time `now` and the new identifiers, are arguments.
pub mod Chats
pub mod Runs
pub mod Events
pub mod Artifacts
pub mod Steps
pub mod Members
pub mod Invitations
pub mod Outbox
pub mod Identities
pub mod Policies
pub mod Skills
pub mod Usage
pub mod Listing
pub mod Invocations
use nice_agent.Prelude.{ℕ, String, true, false, ◌≡◌, ap, List, [], ◌∷◌, Map, pair_key}
use nice_agent.Protocol.Run.{Run, RunUsage}
use nice_agent.Protocol.Chat.{ChatSession, Message, Workspace, Artifact}
use nice_agent.Protocol.Event.{RunEvent}
use nice_agent.Protocol.Identity.{User, UserIdentity, Project, OidcBrowserSession}
use nice_agent.Protocol.Invitation.{
  Invitation, InvitationEmailDelivery, InvitationEmailEvent, InvitationEmailSuppression,
}
use nice_agent.Protocol.Policy.{ProjectQuotaPolicy, ProjectRuntimePolicy}
use nice_agent.Protocol.Skill.{
  Skill, RuntimeSecret, system_scope, builtin_kind, skill_enabled, medium_risk, low_risk,
}
use nice_agent.SkillManifest.HttpConfig.{ConfigError}
use nice_agent.Protocol.Audit.{AuditEvent, SkillInvocationRecord}

pub data Error : Type 0 where
  not_found attempt_mismatch invalid_input identity_conflict : Error
  invalid_skill : ConfigError → Error

pub data Result {ℓ} (A : Type ℓ) : Type ℓ where
  ok : A → Result A
  err : Error → Result A

abbrev from_ok {ℓ} : {A : Type ℓ} → A → Result A → A
from_ok d (ok a) = a
from_ok d (err e) = d

pub ok-injective {ℓ} : {A : Type ℓ} {a b : A} → ok a ≡ ok b → a ≡ b
ok-injective {a = a} q = ap (from_ok a) q

-- A channel that `Subscribe` made, with the events that wait in it.
pub record Subscriber : Type 0 where
  pub channel : ℕ
  pub buffer : List RunEvent

-- The tables.
pub record Store : Type 0 where
  pub users : Map User
  pub identities : Map UserIdentity
  pub user_identities : Map String
  pub oidc_sessions : Map OidcBrowserSession
  pub projects : Map Project
  pub chats : Map ChatSession
  pub messages : Map (List Message)
  pub runs : Map Run
  pub run_usage : Map RunUsage
  pub events : Map (List RunEvent)
  pub workspaces : Map Workspace
  pub artifacts : Map Artifact
  pub invitations : Map Invitation
  pub email_deliveries : Map InvitationEmailDelivery
  pub email_events : List InvitationEmailEvent
  pub email_suppressions : Map InvitationEmailSuppression
  pub skills : Map Skill
  pub skill_grants : Map (List String)
  pub skill_secrets : Map (Map RuntimeSecret)
  pub skill_invocations : List SkillInvocationRecord
  pub audit_events : List AuditEvent
  pub org_roles : Map (List String)
  pub project_roles : Map (List String)
  pub quota_policies : Map ProjectQuotaPolicy
  pub runtime_policies : Map ProjectRuntimePolicy
  pub subscribers : Map (List Subscriber)
  pub seq : Map ℕ

-- The skills that come with the program.
abbrev cli_exec : Skill
cli_exec = record {
  id = "cli.exec";
  slug = "cli.exec";
  scope = system_scope;
  kind = builtin_kind;
  owner_user_id = "";
  project_id = "";
  status = skill_enabled;
  current_version_id = "";
  name = "System CLI";
  version = "0.1.0";
  description = "Fetch external information through a read-only sandboxed CLI.";
  risk = medium_risk;
  requires_auth = false;
  input_schema =
      "{\"type\":\"object\",\"required\":[\"command\"],\"properties\":{\"command\":{\"type\":\"array\",\"items\":{\"type\":\"string\"}}}}";
  output_schema = "";
  annotations =
      "{\"readOnlyHint\":true,\"destructiveHint\":false,\"idempotentHint\":false,\"openWorldHint\":true}";
  runtime_config = "{\"type\":\"builtin\",\"executor\":\"sandbox\"}";
  enabled = true;
}

abbrev workspace_read : Skill
workspace_read = record {
  id = "workspace.read";
  slug = "workspace.read";
  scope = system_scope;
  kind = builtin_kind;
  owner_user_id = "";
  project_id = "";
  status = skill_enabled;
  current_version_id = "";
  name = "Workspace Reader";
  version = "0.1.0";
  description = "Inspect files and artifacts attached to a run workspace.";
  risk = low_risk;
  requires_auth = false;
  input_schema =
      "{\"type\":\"object\",\"properties\":{\"action\":{\"type\":\"string\",\"enum\":[\"summary\",\"list\",\"read\"],\"description\":\"summary returns workspace artifact metadata; list returns artifacts; read returns text artifact content\"},\"artifact_id\":{\"type\":\"string\"},\"max_bytes\":{\"type\":\"integer\",\"minimum\":1,\"maximum\":262144}}}";
  output_schema = "";
  annotations =
      "{\"readOnlyHint\":true,\"destructiveHint\":false,\"idempotentHint\":true,\"openWorldHint\":false}";
  runtime_config = "{\"type\":\"builtin\"}";
  enabled = true;
}

-- `NewStore`, with its demo user and project.
abbrev pub new_store : ℕ → Store
new_store now = record {
  users =
      (
        "demo-user",
        record {
          id = "demo-user";
          email = "demo@niceagent.local";
          name = "Demo User";
          status = "active";
          created_at = now;
        },
      )
      ∷ [];
  identities = [];
  user_identities = [];
  oidc_sessions = [];
  projects =
      (
        "demo-project",
        record {
          id = "demo-project";
          organization_id = "demo-org";
          name = "Demo Project";
          created_at = now;
        },
      )
      ∷ [];
  chats = [];
  messages = [];
  runs = [];
  run_usage = [];
  events = [];
  workspaces = [];
  artifacts = [];
  invitations = [];
  email_deliveries = [];
  email_events = [];
  email_suppressions = [];
  skills = ("cli.exec", cli_exec) ∷ ("workspace.read", workspace_read) ∷ [];
  skill_grants = (pair_key "demo-user" "demo-project", "cli.exec" ∷ "workspace.read" ∷ []) ∷ [];
  skill_secrets = [];
  skill_invocations = [];
  audit_events = [];
  org_roles = (pair_key "demo-user" "demo-org", "owner" ∷ []) ∷ [];
  project_roles = (pair_key "demo-user" "demo-project", "owner" ∷ []) ∷ [];
  quota_policies = [];
  runtime_policies = [];
  subscribers = [];
  seq = [];
}
