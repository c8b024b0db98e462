-- ===== src/Fanout.antt =====
-- The fan-out of run events between control planes: FanoutRepository and the nudges of
-- services/control-plane/internal/events/eventbus.go. The repository that it wraps is the in-memory
-- store. The goroutine that `Subscribe` starts is a loop over what its `select` receives, each input as
-- one step. The bus between the control planes is Redis: what it delivers is an input.
pub mod Bus
pub mod Order
pub mod CatchUp
pub mod Segment
pub mod Relayed
use nice_agent.Prelude.{
  ℕ, String, Bool, ◌&&◌, ◌||◌, true, false, Option, none, some, List, [], ◌∷◌, ◌++◌, ltb, leb,
  if◌then◌else◌, or_else,
}
use nice_agent.Protocol.Run.{Run}
use nice_agent.Protocol.Event.{RunEvent, RunEventType, Payload}
use nice_agent.Store.{Store, Result, ok, err}
use nice_agent.Store.Events.{add_event, list_events, subscribe}

pub record EventNudge : Type 0 where
  pub run_id : String
  pub seq : ℕ
  pub event_id : String

-- The nudge that `Publish` sends.
abbrev pub nudge_of : RunEvent → EventNudge
nudge_of event = record { run_id = event.run_id; seq = event.seq; event_id = event.id }

-- What a subscriber of the bus takes from a payload, which `unmarshal` reads.
unfoldable pub received_nudge : (String → Option EventNudge) → String → String → Option EventNudge
received_nudge unmarshal run_id payload = elim (unmarshal payload) [
  | none ↦ none
  | some nudge ↦ some (record nudge { run_id = or_else nudge.run_id run_id })
]

-- The publications of a bus that is there and succeeds.
abbrev published : Option (EventNudge → Bool) → EventNudge → List EventNudge
published none nudge = []
published (some accepts) nudge = if accepts nudge then nudge ∷ [] else []

-- `bus` is `none` where there is none, and else tells which publications succeed; the log of what was
-- published is the third result.
unfoldable pub fanout_add_event :
    Option (EventNudge → Bool)
    → ℕ
    → String
    → String
    → RunEventType
    → String
    → Payload
    → Store
    → Result RunEvent × Store × List EventNudge
fanout_add_event bus now new_id run_id typ message payload s =
    let (result, t) = add_event now new_id run_id typ message payload s in
    elim result [
      | err e ↦ (err e, t, [])
      | ok event ↦ (ok event, t, published bus (nudge_of event))
    ]

-- The state of the goroutine: `lastSeq`, what went into `out`, and which of its two channels are not
-- nil. It runs until it returns.
pub record Relay : Type 0 where
  pub last_seq : ℕ
  pub out : List RunEvent
  pub local_open : Bool
  pub nudges_open : Bool
  pub running : Bool

abbrev max_from : ℕ → List RunEvent → ℕ
max_from max_seq [] = max_seq
max_from max_seq (event ∷ events) =
    max_from (if ltb max_seq event.seq then event.seq else max_seq) events

unfoldable pub max_event_seq : List RunEvent → ℕ
max_event_seq events = max_from 0 events

-- What the select receives. `taken` tells of each event that the step forwards whether the client takes
-- it before the context is done. A nudge comes with the repository at that time.
pub data Input : Type 0 where
  context_done local_closed nudges_closed : Input
  local_event : (RunEvent → Bool) → RunEvent → Input
  nudged : (RunEvent → Bool) → EventNudge → Store → Input

-- `out <- event` and `lastSeq = event.Seq`
unfoldable pub forwarded : RunEvent → Relay → Relay
forwarded event r = record r { last_seq = event.seq; out = r.out ++ event ∷ [] }

unfoldable pub on_local : (RunEvent → Bool) → RunEvent → Relay → Relay
on_local taken event r = if ltb r.last_seq event.seq && taken event then forwarded event r else r

-- One round of the loop over the listed events.
unfoldable pub catch_up_one : (RunEvent → Bool) → RunEvent → Relay → Relay
catch_up_one taken event r =
    if leb event.seq r.last_seq
    then r
    else if taken event
    then forwarded event r
    else record r { running = false }

-- The loop over the listed events; the goroutine returns inside it where the client is gone.
unfoldable pub catch_up : (RunEvent → Bool) → List RunEvent → Relay → Relay
catch_up taken [] r = r
catch_up taken (event ∷ events) r =
    let q = catch_up_one taken event r in
    let rest = catch_up taken events q in if q.running then rest else q

unfoldable pub on_nudge : (RunEvent → Bool) → EventNudge → String → Store → Relay → Relay
on_nudge taken nudge run_id s r =
    if leb nudge.seq r.last_seq then r else catch_up taken (list_events run_id r.last_seq s) r

-- One turn of the loop. A channel that is nil delivers nothing, and with two of them the loop has ended.
unfoldable pub handle : String → Input → Relay → Relay
handle run_id input r =
    if r.running && (r.local_open || r.nudges_open)
    then elim input [
      | context_done ↦ record r { running = false }
      | local_closed ↦ record r { local_open = false }
      | nudges_closed ↦ record r { nudges_open = false }
      | local_event taken event ↦ if r.local_open then on_local taken event r else r
      | nudged taken nudge s ↦ if r.nudges_open then on_nudge taken nudge run_id s r else r
    ]
    else r

unfoldable pub relay_all : String → List Input → Relay → Relay
relay_all run_id [] r = r
relay_all run_id (input ∷ inputs) r = relay_all run_id inputs (handle run_id input r)

-- The goroutine at its start, with the repository at that time.
unfoldable pub new_relay : String → Store → Relay
new_relay run_id s = record {
  last_seq = max_event_seq (list_events run_id 0 s);
  out = [];
  local_open = true;
  nudges_open = true;
  running = true;
}

-- What a client gets: the channel of the wrapped repository, or the relayed one.
pub data Subscription : Type 0 where
  direct : ℕ → Subscription
  relayed : ℕ → Relay → Subscription

abbrev subscribed : Option Bool → Bool
subscribed none = false
subscribed (some success) = success

-- `bus` is `none` where there is none, and else tells whether its `Subscribe` succeeds.
unfoldable pub fanout_subscribe : Option Bool → ℕ → String → Store → Subscription × Store
fanout_subscribe bus ch run_id s =
    let t = subscribe ch run_id s in
    (if subscribed bus then relayed ch (new_relay run_id t) else direct ch, t)
