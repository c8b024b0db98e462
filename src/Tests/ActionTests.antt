-- ===== src/Tests/ActionTests.antt =====
-- The authorisation of actions.
use nice_agent.Prelude.{[], ◌∷◌, Char}
use nice_agent.Protocol.Audit.{ActorContext}

abbrev same_case : Char → Char
same_case c = c

abbrev admin : ActorContext
admin = record {
  user_id = "carol";
  email = "";
  name = "Carol";
  identity_provider = "";
  identity_issuer = "";
  identity_subject = "";
  project_id = "demo-project";
  org_id = "demo-org";
  roles = "viewer" ∷ "admin" ∷ [];
}
