-- ===== src/Store/Events.antt =====
-- The event methods of store.go: the numbered log of a run, its replay and its live subscribers.
use nice_agent.Prelude.{
  ℕ, ◌+◌, String, not, none, some, List, [], ◌∷◌, ◌++◌, lookup, put, value_or, ltb, eqb, keep,
  length, map, if◌then◌else◌,
}
use nice_agent.Protocol.Run.{Run}
use nice_agent.Protocol.Event.{RunEvent, RunEventType, Payload}
use nice_agent.Store.{Store, Result, ok, err, not_found, Subscriber}

abbrev pub events_of : Store → String → List RunEvent
events_of s run_id = value_or [] (lookup run_id s.events)

abbrev pub seq_of : Store → String → ℕ
seq_of s run_id = value_or 0 (lookup run_id s.seq)

abbrev pub subscribers_of : Store → String → List Subscriber
subscribers_of s run_id = value_or [] (lookup run_id s.subscribers)

-- The size of the channel that `Subscribe` makes.
abbrev pub channel_size : ℕ
channel_size = 32

-- `select { case ch <- event: default: }`: a full channel drops the event.
unfoldable pub offer : RunEvent → Subscriber → Subscriber
offer event sub =
    if ltb (length sub.buffer) channel_size
    then record sub { buffer = sub.buffer ++ event ∷ [] }
    else sub

-- The event that `AddEvent` builds, with the next number of the run.
unfoldable pub new_event :
    ℕ → String → String → RunEventType → String → Payload → Run → Store → RunEvent
new_event now new_id run_id typ message payload run s = record {
  id = new_id;
  run_id = run_id;
  chat_id = run.chat_id;
  seq = seq_of s run_id + 1;
  type = typ;
  message = message;
  payload = payload;
  created_at = now;
}

-- The event is appended under the lock and offered to the subscribers that were registered then; the
-- model does both in one step.
unfoldable pub add_event :
    ℕ → String → String → RunEventType → String → Payload → Store → Result RunEvent × Store
add_event now new_id run_id typ message payload s = elim (lookup run_id s.runs) [
  | none ↦ (err not_found, s)
  | some run ↦
      let event = new_event now new_id run_id typ message payload run s in
      (
        ok event,
        record s {
          seq = put run_id (seq_of s run_id + 1) s.seq;
          events = put run_id (events_of s run_id ++ event ∷ []) s.events;
          subscribers = put run_id (map (offer event) (subscribers_of s run_id)) s.subscribers;
        },
      )
]

unfoldable pub list_events : String → ℕ → Store → List RunEvent
list_events run_id after_seq s = keep (λ e. ltb after_seq e.seq) (events_of s run_id)

-- `ch` names the new channel.
unfoldable pub subscribe : ℕ → String → Store → Store
subscribe ch run_id s =
    let sub : Subscriber = record { channel = ch; buffer = [] } in
    record s { subscribers = put run_id (sub ∷ subscribers_of s run_id) s.subscribers }

-- The function that `Subscribe` returns.
unfoldable pub cancel : ℕ → String → Store → Store
cancel ch run_id s = record s {
  subscribers =
      put run_id (keep (λ sub. not (eqb sub.channel ch)) (subscribers_of s run_id)) s.subscribers;
}
