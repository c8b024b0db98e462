-- ===== src/Tests/ServerTests.antt =====
-- Requests of a stranger.
use nice_agent.Prelude.{[], ◌∷◌, false, ◌≡◌, refl, lookup}
use nice_agent.Protocol.Audit.{ActorContext}
use nice_agent.ActionPolicy.{default_action_policy}
use nice_agent.Server.{Server, Draw, Request, post}
use nice_agent.Server.Access.{actor_can_read_run}
use nice_agent.Store.Runs.{get_run}
use nice_agent.Server.Runs.{run_subroutes}
use nice_agent.Server.Private.{NotFound, run_subroutes-NotFound}
use nice_agent.Tests.Data.{busy}

abbrev pub server : Server
server = record { lower = λ c. c; policy = default_action_policy }

abbrev pub draw : Draw
draw = record {
  now = 70;
  new_id = "new";
  event_now = 71;
  event_id = "evt";
  audit_now = 72;
  audit_id = "audit_1";
}

abbrev pub stranger : ActorContext
stranger = record {
  user_id = "mallory";
  email = "";
  name = "";
  identity_provider = "";
  identity_issuer = "";
  identity_subject = "";
  project_id = "demo-project";
  org_id = "";
  roles = "admin" ∷ [];
}

abbrev pub cancel_request : Request
cancel_request = record {
  actor = stranger;
  method = post;
  parts = "run_1" ∷ "cancel" ∷ [];
  title = "";
  list_options = record { query = ""; include_archived = false };
  request_id = "req_1";
  trace_id = "";
  ip = "";
  user_agent = "";
}

hidden : actor_can_read_run stranger "run_1" busy ≡ false
unfolding actor_can_read_run get_run lookup
hidden = refl

run_subroutes-NotFound_example : NotFound busy (run_subroutes server draw cancel_request busy)
run_subroutes-NotFound_example =
    run_subroutes-NotFound server draw cancel_request "run_1" ("cancel" ∷ []) busy refl hidden
