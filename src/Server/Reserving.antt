-- ===== src/Server/Reserving.antt =====
-- The reservation of a new run in server.go: made, rolled back, and released when the run fails. The
-- repository is the one that gives reservations back (Quota), the limiter that of Quota/Limiter. The
-- estimate of the tokens of a message and what is drawn from the clock are arguments.
use nice_agent.Prelude.{ℕ, ℤ, String, Option, none, some, List, [], ◌∷◌, Map}
use nice_agent.Protocol.Json.{Json, str, obj, field, end}
use nice_agent.Protocol.Audit.{ActorContext}
use nice_agent.Protocol.Event.{run_failed, json}
use nice_agent.Protocol.Policy.{ProjectQuotaPolicy}
use nice_agent.Protocol.Run.{Run, RunStatus, failed}
use nice_agent.Store.{Store, Result}
use nice_agent.Store.Chats.{NewIds}
use nice_agent.Store.Events.{add_event}
use nice_agent.Quota.{Release, releasing_update}
use nice_agent.Quota.Counters.{CounterStore}
use nice_agent.Quota.Marker.{MarkerLibrary}
use nice_agent.Quota.Limiter.{
  RedisLimiter, Reservation, reserve_run_with_hint, rollback, release_run,
}
use nice_agent.Server.{Server, Draw}
use nice_agent.Server.Limits.{
  QuotaOptions, effective_quota_policy, Since, check_daily_usage_quota, check_token_quota,
  check_run_quota, or_refusal, QuotaAnswer, quota_denied, quota_reserved, refused_or,
  limiter_answer,
}

-- What a request draws: the texts of the hour and the day, the tokens of the message, and the clock
-- and the identifiers of its calls; `failed` are those after a failure.
pub record MessageDraw : Type 0 where
  pub draw : Draw
  pub failed : Draw
  pub ids : NewIds
  pub since : Since
  pub hour_text : String
  pub day_text : String
  pub tokens : ℤ

-- The repository and the counters of the limiter.
pub record World (S : Type 0) : Type 0 where
  pub repo : Store
  pub counters : S

module _ {S : Type 0} (db : CounterStore S) (lib : MarkerLibrary) (server : Server)
    (q : QuotaOptions) where
  -- The calls of the limiter that the repository has made; their errors are only logged.
  unfoldable pub release_all : RedisLimiter → List Release → S → S
  release_all l [] s = s
  release_all l (r ∷ rest) s =
      release_all l rest (release_run db lib l r.run r.project_id r.usage s).1

  unfoldable pub release_through : Option RedisLimiter → List Release → S → S
  release_through none releases s = s
  release_through (some l) releases s = release_all l releases s

  -- The repository gives reservations back where there is a limiter.
  unfoldable pub update_status : ℕ → String → RunStatus → String → World S → Result Run × World S
  update_status now run_id status err_message w =
      let (result, updated) =
        releasing_update now run_id status err_message (record { store = w.repo; releases = [] }) in
      (
        result,
        record {
          repo = updated.store;
          counters = release_through q.limiter updated.releases w.counters;
        },
      )

  -- The limiter, or the counts of the repository where there is none.
  unfoldable pub reserve_through :
      Option RedisLimiter
      → MessageDraw
      → ActorContext
      → ProjectQuotaPolicy
      → World S
      → QuotaAnswer × S
  reserve_through (some l) d actor quota w =
      let answer =
        reserve_run_with_hint db l d.hour_text d.day_text actor quota d.tokens w.counters in
      (limiter_answer l answer.0, answer.1)
  reserve_through none d actor quota w =
      (refused_or (quota_reserved none) (check_run_quota q d.since actor w.repo), w.counters)

  unfoldable pub reserve_unless :
      Option (String × Map Json)
      → MessageDraw
      → ActorContext
      → ProjectQuotaPolicy
      → World S
      → QuotaAnswer × S
  reserve_unless (some (message, metadata)) d actor quota w =
      (quota_denied message metadata, w.counters)
  reserve_unless none d actor quota w = reserve_through q.limiter d actor quota w

  unfoldable pub reserve_run_quota : MessageDraw → ActorContext → World S → QuotaAnswer × S
  reserve_run_quota d actor w =
      let quota = effective_quota_policy q actor.project_id w.repo in
      reserve_unless
        (or_refusal (check_token_quota d.since actor quota w.repo)
          (check_daily_usage_quota d.since actor quota w.repo))
        d actor quota w

  -- The deferred rollback.
  unfoldable pub roll_back : Option (RedisLimiter × Reservation) → World S → World S
  roll_back none w = w
  roll_back (some (l, r)) w = record w { counters = (rollback db r w.counters).2 }

  -- A run whose reservation or dispatch has failed.
  unfoldable pub fail_run : MessageDraw → String → String → String → World S → World S
  fail_run d run_id err_message message w =
      let t = (update_status d.failed.now run_id failed err_message w).1 in
      record t {
        repo =
            (add_event d.failed.event_now d.failed.event_id run_id run_failed message
              (json (obj (field "error" (str err_message) end))) t.repo).1;
      }
