-- ===== src/Fanout/Bus.antt =====
-- The buses of services/control-plane/internal/events/eventbus.go: the one over the repository, the one
-- that is not implemented, and the settings and the nudges of the Redis one.
use nice_agent.Prelude.{ℕ, String, Option, none, some, List, Map, lookup, value_or, or_else, concat}
use nice_agent.Protocol.Event.{RunEvent}
use nice_agent.Store.{Store, Error, Result, ok, err}
use nice_agent.Store.Events.{add_event, list_events, subscribe}
use nice_agent.Fanout.{EventNudge}

pub data BusError : Type 0 where
  external_adapter_not_implemented : BusError
  repository : Error → BusError

pub data BusResult {ℓ} (A : Type ℓ) : Type ℓ where
  done : A → BusResult A
  fails : BusError → BusResult A

-- The interface `EventBus`: each method returns its result and the repository after it.
pub record EventBus : Type 0 where
  pub publish : ℕ → String → RunEvent → Store → BusResult (Unit {0}) × Store
  pub replay : String → ℕ → Store → BusResult (List RunEvent)
  pub subscribe : ℕ → String → Store → BusResult ℕ × Store

abbrev answer : Result RunEvent → BusResult (Unit {0})
answer (err e) = fails (repository e)
answer (ok event) = done tt

unfoldable pub repository_event_bus : EventBus
repository_event_bus = record {
  publish = λ now new_id event s.
      let (result, t) =
        add_event now new_id event.run_id event.type event.message event.payload s in
      (answer result, t);
  replay = λ run_id after_seq s. done (list_events run_id after_seq s);
  subscribe = λ ch run_id s. (done ch, subscribe ch run_id s);
}

unfoldable pub redis_streams_event_bus : EventBus
redis_streams_event_bus = record {
  publish = λ now new_id event s. (fails external_adapter_not_implemented, s);
  replay = λ run_id after_seq s. fails external_adapter_not_implemented;
  subscribe = λ ch run_id s. (fails external_adapter_not_implemented, s);
}

pub record RedisNudgeBus : Type 0 where
  pub addr : String
  pub prefix : String

unfoldable pub new_redis_nudge_bus : String → String → RedisNudgeBus
new_redis_nudge_bus addr prefix = record {
  addr = or_else addr "127.0.0.1:6379";
  prefix = or_else prefix "niceagent:run-events";
}

-- The channel of a run.
unfoldable pub channel : RedisNudgeBus → String → String
channel b run_id = concat b.prefix (concat ":" run_id)

-- `DecodeEventNudge`; `parse_int` is `strconv.ParseInt(_, 10, 64)`.
unfoldable pub decode_event_nudge : (String → Option ℕ) → Map String → Option EventNudge
decode_event_nudge parse_int values = elim (parse_int (value_or "" (lookup "seq" values))) [
  | none ↦ none
  | some seq ↦ some (record {
    run_id = value_or "" (lookup "run_id" values);
    seq = seq;
    event_id = value_or "" (lookup "event_id" values);
  })
]
