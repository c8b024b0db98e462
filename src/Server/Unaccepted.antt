-- ===== src/Server/Unaccepted.antt =====
-- The handler of a new message in server.go, where it does not accept the message.
use nice_agent.Prelude.{
  ℕ, String, false, Option, none, some, ◌≡◌, refl, sym, subst, ◌==◌, ◌⊎◌, inl, inr,
}
use nice_agent.Protocol.Chat.{Message}
use nice_agent.Protocol.Run.{Run, queued, failed, zero_run_usage}
use nice_agent.Store.Invocations.{add_audit_event}
use nice_agent.Quota.Counters.{CounterStore, View, SameCount}
use nice_agent.Quota.Marker.{MarkerLibrary}
use nice_agent.Quota.Limiter.{RedisLimiter, Reservation, rollback, release_run}
use nice_agent.Store.Runs.{with_status}
use nice_agent.Server.{Server, Request, Response, write_audit_event}
use nice_agent.Server.Limits.{QuotaOptions}
use nice_agent.Server.Reserving.{World, MessageDraw, fail_run, roll_back}
use nice_agent.Server.Messages.{dispatched, dispatch_run}
use nice_agent.Server.Costless.{IsReady, IsReady-carry, add_event-IsReady, update_status-releases}

module _ {S : Type 0} (db : CounterStore S) (view : View S) (lib : MarkerLibrary) (server : Server)
    (q : QuotaOptions) (l : RedisLimiter) (limited : q.limiter ≡ some l) (s0 : S) where
  -- The message is accepted, or the counters are those of `s0`.
  abbrev pub Costless : Response × World S → Type 0
  Costless answer = (answer.0.status ≡ 202) ⊎ SameCount view s0 answer.1.counters

  -- A reservation that is given back when its run fails.
  abbrev pub IsRefunded : Run → String → ℕ → Reservation → S → Type 0
  IsRefunded run project_id now r s =
      (e : String)
      → SameCount view s0
          (rollback db r
            (release_run db lib l (with_status now failed e run) project_id zero_run_usage s).1).2

  module _ (d : MessageDraw) (r : Request) (held : Reservation) (message : Message) (run : Run)
      (project_id : String) (waiting : run.status ≡ queued)
      (named : (project_id == "") ≡ false) where
    dispatched-Costless :
        (w : World S) (answer : Option String)
        → IsReady run project_id w.repo
        → IsRefunded run project_id d.failed.now held w.counters
        → Costless (dispatched db lib server q d r (some (l, held)) message run w answer)
    unfolding dispatched roll_back fail_run
    dispatched-Costless w none ready refunded = inl refl
    dispatched-Costless w (some e) ready refunded =
        let released =
          update_status-releases db lib server q l limited d.failed.now run project_id e w ready
            waiting named in
        inr (subst (λ s. SameCount view s0 (rollback db held s).2) (sym released) (refunded e))

    pub dispatch_run-Costless :
        (dispatch : Run → String → Option String) (chat_id content : String) (w : World S)
        → IsReady run project_id w.repo
        → IsRefunded run project_id d.failed.now held w.counters
        → Costless (
            dispatch_run db lib server q dispatch d r chat_id content
              (some (l, held))
              message
              run
              w)
    unfolding dispatch_run write_audit_event add_audit_event
    dispatch_run-Costless dispatch chat_id content w ready refunded =
        dispatched-Costless _ (dispatch run content)
          (IsReady-carry run project_id _ _ refl refl refl
            (add_event-IsReady run project_id _ _ _ _ _ _ w.repo ready))
          refunded
