-- ===== src/Server/Runs.antt =====
-- The handlers of runs and artifacts in server.go.
use nice_agent.Prelude.{String, List, [], ◌∷◌, ◌==◌, if◌then◌else◌, not}
use nice_agent.Protocol.Run.{canceled}
use nice_agent.Protocol.Event.{run_canceled, nothing}
use nice_agent.ActionPolicy.{write}
use nice_agent.Store.{Store, ok, err}
use nice_agent.Store.Runs.{get_run, update_run_status}
use nice_agent.Store.Events.{add_event}
use nice_agent.Store.Artifacts.{list_artifacts}
use nice_agent.Server.{
  Server, Draw, Request, Method, get, post, Subject, Response, one_run, event_stream, artifact_list,
  one_artifact, write_error, write_json, write_store_err, audit_allow, audit_deny, require_action,
}
use nice_agent.Server.Access.{actor_can_read_run, read_authorized_artifact}

abbrev pub run_subject : String → String → Subject
run_subject action run_id = record {
  action = action;
  resource_type = "run";
  resource_id = run_id;
  run_id = run_id;
}

-- The test in front of each route of a run.
unfoldable pub if_readable :
    Server
    → Draw
    → Request
    → String
    → String
    → String
    → (Store → Response × Store)
    → Store
    → Response × Store
if_readable server d r action reason run_id handler s =
    if not (actor_can_read_run r.actor run_id s)
    then (
      write_error 404 "not found",
      audit_deny server d r (run_subject action run_id) reason [] s,
    )
    else handler s

unfoldable pub read_run : String → Store → Response × Store
read_run run_id s = elim (get_run run_id s) [
  | err e ↦ (write_store_err e, s)
  | ok run ↦ (write_json 200 (one_run run), s)
]

-- The release of the run's reservation by the wrapped repository (Quota) is left out here.
unfoldable pub cancel_run : Server → Draw → Request → String → Store → Response × Store
cancel_run server d r run_id s =
    let (updated, t) = update_run_status d.now run_id canceled "" s in
    elim updated [
      | err e ↦ (write_store_err e, t)
      | ok run ↦ (
        write_json 200 (one_run run),
        audit_allow server d r (run_subject "run.cancel" run_id) []
            (add_event d.event_now d.event_id run_id run_canceled "Run canceled by user." nothing
              t).1,
      )
    ]

-- The routes under a run, by the method and the parts of the path after the run.
unfoldable pub run_route :
    Server → Draw → Request → String → Method → List String → Store → Response × Store
run_route server d r run_id get [] s =
    if_readable server d r "run.read" "actor cannot read run" run_id (read_run run_id) s
run_route server d r run_id get (part ∷ []) s =
    if part == "events"
    then if_readable server d r "run.events.read" "actor cannot read run events" run_id
        (λ t. (write_json 200 (event_stream run_id), t)) s
    else if part == "artifacts"
    then if_readable server d r "artifact.list" "actor cannot list run artifacts" run_id
        (λ t. (write_json 200 (artifact_list (list_artifacts d.now run_id t)), t)) s
    else (write_error 404 "run route not found", s)
run_route server d r run_id post (part ∷ []) s =
    if part == "cancel"
    then if_readable server d r "run.cancel" "actor cannot cancel run" run_id
        (require_action server d r (run_subject "run.cancel" run_id) write
          (cancel_run server d r run_id))
        s
    else (write_error 404 "run route not found", s)
run_route server d r run_id method rest s = (write_error 404 "run route not found", s)

unfoldable pub run_subroutes : Server → Draw → Request → Store → Response × Store
run_subroutes server d r s = elim r.parts [
  | [] ↦ (write_error 404 "run route not found", s)
  | run_id ∷ rest ↦ run_route server d r run_id r.method rest s
]

-- `GET /api/artifacts/{id}`
unfoldable pub read_artifact : Server → Draw → Request → String → Store → Response × Store
read_artifact server d r artifact_id s =
    let (read, t) = read_authorized_artifact server d r artifact_id s in
    elim read [
      | err e ↦ (write_store_err e, t)
      | ok artifact ↦ (write_json 200 (one_artifact artifact), t)
    ]
