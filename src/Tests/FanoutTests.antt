-- ===== src/Tests/FanoutTests.antt =====
-- The fan-out of the events of a run.
use nice_agent.Prelude.{◌≡◌, refl, [], ◌∷◌, ◌++◌, drop, arith, lookup, put}
use nice_agent.Protocol.Event.{RunEvent, run_started, nothing}
use nice_agent.Store.{Store}
use nice_agent.Store.Events.{events_of, new_event, add_event, list_events}
use nice_agent.Store.Steps.{add_event_step, here}
use nice_agent.Fanout.{
  EventNudge, Relay, local_event, nudged, max_event_seq, handle, relay_all, new_relay,
}
use nice_agent.Fanout.Order.{Rising, relay_all-Rising}
use nice_agent.Fanout.CatchUp.{all_taken}
use nice_agent.Fanout.Relayed.{
  Relayed, started, stored, local_received, Relayed-segment, handle-nudged_whole,
}
use nice_agent.Tests.EventTests.{busy-LogOk}
use nice_agent.Tests.Data.{claimed, busy}

abbrev first_event : RunEvent
first_event = new_event 30 "evt_1" "run_1" run_started "Run started." nothing claimed busy

abbrev after_one : Store
after_one = (add_event 30 "evt_1" "run_1" run_started "Run started." nothing busy).1

abbrev nudge : EventNudge
nudge = record { run_id = "run_1"; seq = 1; event_id = "evt_1" }

abbrev started_relay : Relay
started_relay = new_relay "run_1" busy

relay_all-Rising_example :
    Rising 0
      (relay_all "run_1"
        (nudged all_taken nudge after_one ∷ local_event all_taken first_event ∷ [])
        started_relay).out
      (relay_all "run_1"
        (nudged all_taken nudge after_one ∷ local_event all_taken first_event ∷ [])
        started_relay).last_seq
unfolding new_relay max_event_seq list_events lookup
relay_all-Rising_example =
    relay_all-Rising "run_1"
      (nudged all_taken nudge after_one ∷ local_event all_taken first_event ∷ []) 0 started_relay
      (omega arith)

running_relay : Relayed busy "run_1" 0 after_one 0 started_relay
unfolding new_relay max_event_seq list_events lookup
running_relay =
    stored (started {s = busy} here refl)
      (add_event_step 30 "evt_1" "run_1" run_started "Run started." nothing)

Relayed-segment_example :
    drop 0 (events_of after_one "run_1")
    ≡ (handle "run_1" (local_event all_taken first_event) started_relay).out
      ++ drop
          (handle "run_1" (local_event all_taken first_event) started_relay).last_seq
          (events_of after_one "run_1")
unfolding add_event lookup put new_event
Relayed-segment_example =
    Relayed-segment "run_1" 0 1
      {r = handle "run_1" (local_event all_taken first_event) started_relay} busy-LogOk
      (local_received {delivered = 0} first_event [] running_relay refl)

handle-nudged_whole_example :
    (handle "run_1" (nudged all_taken nudge after_one) started_relay).out
    ≡ drop 0 (events_of after_one "run_1")
unfolding new_relay max_event_seq list_events lookup
handle-nudged_whole_example =
    handle-nudged_whole "run_1" 0 0 {r = started_relay} nudge busy-LogOk running_relay refl
      (omega arith)
