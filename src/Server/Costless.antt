-- ===== src/Server/Costless.antt =====
-- A message that server.go does not accept costs its user nothing.
use nice_agent.Prelude.{
  ℕ, String, false, none, some, ◌≡◌, refl, ap, [], ◌∷◌, ◌==◌, arith, lookup, put, ◌∙◌,
  lookup-put_self,
}
use nice_agent.Protocol.Chat.{ChatSession}
use nice_agent.Protocol.Event.{RunEventType, Payload}
use nice_agent.Protocol.Run.{Run, queued, failed, zero_run_usage, is_terminal_run_status}
use nice_agent.Store.{Store, ok}
use nice_agent.Store.Chats.{get_chat}
use nice_agent.Store.Runs.{get_run_usage, update_run_status, with_status}
use nice_agent.Store.Events.{add_event}
use nice_agent.Quota.Updates.{releasing_update-found}
use nice_agent.Quota.{usage_or_zero, with_release, project_id_for_run}
use nice_agent.Quota.Counters.{CounterStore}
use nice_agent.Quota.Marker.{MarkerLibrary}
use nice_agent.Quota.Limiter.{RedisLimiter, release_run}
use nice_agent.Server.{Server}
use nice_agent.Server.Limits.{QuotaOptions}
use nice_agent.Server.Reserving.{World, update_status, release_through, release_all}

-- The repository knows a new run of a chat, which has used nothing yet.
pub record IsReady (run : Run) (project_id : String) (s : Store) : Type 0 where
  pub chat : ChatSession
  pub found : lookup run.id s.runs ≡ some run
  pub of_chat : lookup run.chat_id s.chats ≡ some chat
  pub of_project : chat.project_id ≡ project_id
  pub unused : lookup run.id s.run_usage ≡ none

module _ (run : Run) (project_id : String) where
  -- What the other tables hold does not matter.
  pub IsReady-carry :
      (s t : Store)
      → t.runs ≡ s.runs
      → t.chats ≡ s.chats
      → t.run_usage ≡ s.run_usage
      → IsReady run project_id s
      → IsReady run project_id t
  IsReady-carry s t p q u h = record {
    chat = h.chat;
    found = ap (lookup run.id) p ∙ h.found;
    of_chat = ap (lookup run.chat_id) q ∙ h.of_chat;
    of_project = h.of_project;
    unused = ap (lookup run.id) u ∙ h.unused;
  }

  pub add_event-IsReady :
      (now : ℕ) (id run_id message : String) (typ : RunEventType) (payload : Payload) (s : Store)
      → IsReady run project_id s
      → IsReady run project_id (add_event now id run_id typ message payload s).1
  unfolding add_event
  add_event-IsReady now id run_id message typ payload s h =
      IsReady-carry s (add_event now id run_id typ message payload s).1 (ground arith)
        (ground arith) (ground arith) h

  -- The run has failed.
  module _ (now : ℕ) (e : String) (s : Store) (h : IsReady run project_id s)
      (waiting : run.status ≡ queued) (named : (project_id == "") ≡ false) where
    abbrev run' : Run
    run' = with_status now failed e run

    abbrev failed_store : Store
    failed_store = record s { runs = put run.id run' s.runs }

    update_run_status-failed : update_run_status now run.id failed e s ≡ (ok run', failed_store)
    unfolding update_run_status
    update_run_status-failed =
        let found = h.found in
        let open_run : is_terminal_run_status run.status ≡ false = rw waiting refl in ground arith

    project-failed : project_id_for_run run' failed_store ≡ project_id
    unfolding project_id_for_run get_chat with_status
    project-failed = let found = h.of_chat in let same = h.of_project in ground arith

    usage-failed : usage_or_zero (get_run_usage run'.id failed_store) ≡ zero_run_usage
    unfolding get_run_usage with_status
    usage-failed =
        let found = lookup-put_self run.id run' s.runs in let none_used = h.unused in ground arith

    with_release-failed :
        with_release run.status run' failed_store []
        ≡ record { run = run'; project_id = project_id; usage = zero_run_usage } ∷ []
    unfolding with_release with_status
    with_release-failed = rw (waiting, project-failed, usage-failed) (rw named refl)

module _ {S : Type 0} (db : CounterStore S) (lib : MarkerLibrary) (server : Server)
    (q : QuotaOptions) (l : RedisLimiter) (limited : q.limiter ≡ some l) where
  -- The failure of a run that is ready releases its reservation.
  pub update_status-releases :
      (now : ℕ) (run : Run) (project_id e : String) (w : World S)
      → IsReady run project_id w.repo
      → run.status ≡ queued
      → (project_id == "") ≡ false
      → (update_status db lib server q now run.id failed e w).1.counters
        ≡ (release_run db lib l
            (with_status now failed e run)
            project_id
            zero_run_usage
            w.counters).1
  unfolding update_status release_through release_all
  update_status-releases now run project_id e w h waiting named =
      let updated = update_run_status-failed run project_id now e w.repo h waiting named in
      let found =
        releasing_update-found now run.id failed e (record { store = w.repo; releases = [] }) run
          (with_status now failed e run) h.found (ap (λ x. x.0) updated) in
      let releases =
        ap (λ u. u.releases) found
        ∙ ap (λ u. with_release run.status (with_status now failed e run) u.1 []) updated
        ∙ with_release-failed run project_id now e w.repo h waiting named in
      rw (limited, releases) refl
