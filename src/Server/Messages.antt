-- ===== src/Server/Messages.antt =====
-- The handler of a new message in server.go. The dispatcher is an argument, and the errors of the
-- limiter are not told apart.
use nice_agent.Prelude.{
  String, Bool, not, true, Option, none, some, [], ◌∷◌, ◌==◌, if◌then◌else◌, trim_space,
}
use nice_agent.Protocol.Json.{str, obj, field, end}
use nice_agent.Protocol.Chat.{Message}
use nice_agent.Protocol.Event.{run_queued, json}
use nice_agent.Protocol.Run.{Run}
use nice_agent.ActionPolicy.{write, authorize}
use nice_agent.Store.{Store, Result, ok, err}
use nice_agent.Store.Chats.{add_user_message}
use nice_agent.Store.Events.{add_event}
use nice_agent.Quota.Counters.{CounterStore}
use nice_agent.Quota.Marker.{MarkerLibrary}
use nice_agent.Quota.Limiter.{RedisLimiter, Reservation, commit}
use nice_agent.Server.{
  Server, Request, Response, Subject, write_error, write_store_err, audit_allow, audit_deny,
  accepted, role_metadata,
}
use nice_agent.Server.Access.{actor_can_read_chat_id}
use nice_agent.Server.Chats.{chat_subject}
use nice_agent.Server.Limits.{QuotaOptions, QuotaAnswer, quota_failed, quota_denied, quota_reserved}
use nice_agent.Server.Reserving.{MessageDraw, World, reserve_run_quota, roll_back, fail_run}

module _ {S : Type 0} (db : CounterStore S) (lib : MarkerLibrary) (server : Server)
    (q : QuotaOptions) where
  abbrev run_subject : String → String → Subject
  run_subject action run_id = record {
    action = action;
    resource_type = "run";
    resource_id = run_id;
    run_id = run_id;
  }

  -- After the dispatcher has answered: `none`, or an error.
  unfoldable pub dispatched :
      MessageDraw
      → Request
      → Option (RedisLimiter × Reservation)
      → Message
      → Run
      → World S
      → Option String
      → Response × World S
  dispatched d r held message run w none = (record { status = 202; body = accepted message run }, w)
  dispatched d r held message run w (some e) =
      let t = fail_run db lib server q d run.id e "Run dispatch failed." w in
      (
        write_error 503 "run dispatch failed",
        roll_back db lib server q held (record t {
          repo =
              audit_deny server d.failed r (run_subject "run.dispatch" run.id) "run dispatch failed"
                (("error_class", str "dispatch_failed") ∷ []) t.repo;
        }),
      )

  unfoldable pub dispatch_run :
      (Run → String → Option String)
      → MessageDraw
      → Request
      → String
      → String
      → Option (RedisLimiter × Reservation)
      → Message
      → Run
      → World S
      → Response × World S
  dispatch_run dispatch d r chat_id content held message run w =
      let queued =
        (add_event d.draw.event_now d.draw.event_id run.id run_queued "Run queued by control plane."
          (json (obj (field "message_id" (str message.id) end))) w.repo).1 in
      dispatched d r held message run
        (record w {
          repo =
              audit_allow server d.draw r (run_subject "run.create" run.id)
                (("chat_id", str chat_id) ∷ ("message_id", str message.id) ∷ []) queued;
        })
        (dispatch run content)

  -- The commit of a reservation; `none` is no reservation.
  unfoldable pub commit_held :
      String
      → Option (RedisLimiter × Reservation)
      → S
      → Bool × Option (RedisLimiter × Reservation) × S
  commit_held run_id none s = (true, none, s)
  commit_held run_id (some (l, r)) s =
      let (fine, r', t) = commit db lib l run_id r s in (fine, some (l, r'), t)

  unfoldable pub commit_run :
      (Run → String → Option String)
      → MessageDraw
      → Request
      → String
      → String
      → Option (RedisLimiter × Reservation)
      → Message
      → Run
      → World S
      → Response × World S
  commit_run dispatch d r chat_id content held message run w =
      let (fine, held', counters) = commit_held run.id held w.counters in
      let committed = record w { counters = counters } in
      if fine
      then dispatch_run dispatch d r chat_id content held' message run committed
      else (let t =
            fail_run db lib server q d run.id "commit failed" "Run quota reservation failed."
              committed in
          (
            write_error 503 "quota reservation failed",
            roll_back db lib server q held' (record t {
              repo =
                  audit_deny server d.failed r (run_subject "quota.run.create" run.id)
                    "quota reservation failed" (("error", str "commit failed") ∷ []) t.repo;
            }),
          ))

  abbrev quota_subject : String → Subject
  quota_subject chat_id = record {
    action = "quota.run.create";
    resource_type = "run";
    resource_id = chat_id;
    run_id = "";
  }

  -- After the message has been added.
  unfoldable pub added_message :
      (Run → String → Option String)
      → MessageDraw
      → Request
      → String
      → String
      → Option (RedisLimiter × Reservation)
      → S
      → Result (Message × Run) × Store
      → Response × World S
  added_message dispatch d r chat_id content held counters (err e, t) =
      (write_store_err e, roll_back db lib server q held (record { repo = t; counters = counters }))
  added_message dispatch d r chat_id content held counters (ok (message, run), t) =
      commit_run dispatch d r chat_id content held message run
        (record { repo = t; counters = counters })

  unfoldable pub reserved_message :
      (String → String)
      → (Run → String → Option String)
      → MessageDraw
      → Request
      → String
      → String
      → QuotaAnswer
      → World S
      → Response × World S
  reserved_message cut dispatch d r chat_id content quota_failed w = (
    write_error 503 "quota backend unavailable",
    record w {
      repo =
          audit_deny server d.draw r (quota_subject chat_id) "quota backend unavailable"
            (("error", str "quota backend unavailable") ∷ []) w.repo;
    },
  )
  reserved_message cut dispatch d r chat_id content (quota_denied message metadata) w = (
    write_error 429 message,
    record w { repo = audit_deny server d.draw r (quota_subject chat_id) message metadata w.repo },
  )
  reserved_message cut dispatch d r chat_id content (quota_reserved held) w =
      added_message dispatch d r chat_id content held w.counters
        (add_user_message d.draw.now cut d.ids chat_id r.actor.user_id content w.repo)

  -- `createMessage`; the content is `none` where the body is not JSON.
  unfoldable pub create_message :
      (String → String)
      → (Run → String → Option String)
      → MessageDraw
      → Request
      → Option String
      → String
      → World S
      → Response × World S
  create_message cut dispatch d r none chat_id w = (write_error 400 "invalid json body", w)
  create_message cut dispatch d r (some body) chat_id w =
      let content = trim_space body in
      let decision = authorize server.lower server.policy r.actor "message.create" write in
      if content == ""
      then (write_error 400 "content is required", w)
      else if not (actor_can_read_chat_id r.actor chat_id w.repo)
      then (
        write_error 404 "not found",
        record w {
          repo =
              audit_deny server d.draw r (chat_subject "message.create" chat_id)
                "actor cannot write chat" [] w.repo;
        },
      )
      else if not decision.allowed
      then (
        write_error 403 decision.message,
        record w {
          repo =
              audit_deny server d.draw r (chat_subject "message.create" chat_id) decision.reason
                (role_metadata r.actor.roles decision.required_roles) w.repo;
        },
      )
      else (let (answer, counters) = reserve_run_quota db lib server q d r.actor w in
          reserved_message cut dispatch d r chat_id content answer
            (record w { counters = counters }))
