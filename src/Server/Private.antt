-- ===== src/Server/Private.antt =====
-- What the handlers of server.go show to an actor, and let an actor change.
use nice_agent.Prelude.{
  String, Bool, true, false, ◌≡◌, refl, sym, subst, List, [], ◌∷◌, ◌==◌, if◌then◌else◌, arith,
}
use nice_agent.Store.{Store}
use nice_agent.Store.Invocations.{add_audit_event}
use nice_agent.Server.{
  Server, Draw, Request, Method, get, post, other_method, Response, write_audit_event,
}
use nice_agent.Server.Access.{actor_can_read_run}
use nice_agent.Server.Runs.{if_readable, run_route, run_subroutes}

-- Nothing but the audit events has changed.
abbrev pub OnlyAudit : Store → Store → Type 0
OnlyAudit s t = t ≡ record s { audit_events = t.audit_events }

-- A request that is not found, with no trace but an audit event.
abbrev pub NotFound : Store → Response × Store → Type 0
NotFound s answer = (answer.0.status ≡ 404) × OnlyAudit s answer.1

NotFound-if :
    (s : Store) (b : Bool) (x y : Response × Store)
    → NotFound s x
    → NotFound s y
    → NotFound s (if b then x else y)
NotFound-if s true x y p q = p
NotFound-if s false x y p q = q

module _ (server : Server) (d : Draw) (r : Request) where
  run_subroutes-eq :
      (run_id : String) (rest : List String) (s : Store)
      → r.parts ≡ run_id ∷ rest
      → run_subroutes server d r s ≡ run_route server d r run_id r.method rest s
  unfolding run_subroutes
  run_subroutes-eq run_id rest s path = ground arith

  if_readable-NotFound :
      (action reason run_id : String) (handler : Store → Response × Store) (s : Store)
      → actor_can_read_run r.actor run_id s ≡ false
      → NotFound s (if_readable server d r action reason run_id handler s)
  unfolding if_readable write_audit_event add_audit_event
  if_readable-NotFound action reason run_id handler s hidden = rw hidden (refl, refl)

  run_route-NotFound :
      (run_id : String) (method : Method) (rest : List String) (s : Store)
      → actor_can_read_run r.actor run_id s ≡ false
      → NotFound s (run_route server d r run_id method rest s)
  unfolding run_route
  run_route-NotFound run_id get [] s hidden = if_readable-NotFound _ _ run_id _ s hidden
  run_route-NotFound run_id get (part ∷ []) s hidden =
      NotFound-if s (part == "events") _ _ (if_readable-NotFound _ _ run_id _ s hidden) (
        NotFound-if s (part == "artifacts") _ _ (if_readable-NotFound _ _ run_id _ s hidden)
          (refl, refl))
  run_route-NotFound run_id get (part ∷ other ∷ rest) s hidden = (refl, refl)
  run_route-NotFound run_id post [] s hidden = (refl, refl)
  run_route-NotFound run_id post (part ∷ []) s hidden =
      NotFound-if s (part == "cancel") _ _ (if_readable-NotFound _ _ run_id _ s hidden) (refl, refl)
  run_route-NotFound run_id post (part ∷ other ∷ rest) s hidden = (refl, refl)
  run_route-NotFound run_id other_method rest s hidden = (refl, refl)

  -- Whoever may not read a run is told that it is not found, by every route of the run, as for a run
  -- that does not exist; nothing changes but the audit events.
  pub run_subroutes-NotFound :
      (run_id : String) (rest : List String) (s : Store)
      → r.parts ≡ run_id ∷ rest
      → actor_can_read_run r.actor run_id s ≡ false
      → NotFound s (run_subroutes server d r s)
  run_subroutes-NotFound run_id rest s path hidden =
      subst (NotFound s) (sym (run_subroutes-eq run_id rest s path))
        (run_route-NotFound run_id r.method rest s hidden)
