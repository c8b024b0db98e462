-- ===== src/Tests/EventTests.antt =====
-- The event log of a run.
use nice_agent.Prelude.{◌+◌, ◌≡◌, refl, lookup, put, [], ◌∷◌, ◌++◌, drop, arith}
use nice_agent.Protocol.Event.{RunEvent, run_started, nothing}
use nice_agent.Store.{Store}
use nice_agent.Store.Events.{events_of, seq_of, new_event, add_event, list_events}
use nice_agent.Store.Steps.{add_event_step, here, next}
use nice_agent.Store.Steps.Numbered.{LogOk, Reach-LogOk, list_events-eq-drop, list_events-add_event}
use nice_agent.Tests.Data.{claimed, busy}

abbrev one_event : Store
one_event = (add_event 30 "evt_1" "run_1" run_started "Run started." nothing busy).1

pub busy-LogOk : LogOk busy "run_1"
unfolding lookup
busy-LogOk = record { numbered = tt; counted = refl }

Reach-LogOk_example : LogOk one_event "run_1"
Reach-LogOk_example =
    Reach-LogOk {s = busy} "run_1"
      (next here (add_event_step 30 "evt_1" "run_1" run_started "Run started." nothing)) busy-LogOk

list_events-eq-drop_example : list_events "run_1" 0 one_event ≡ drop 0 (events_of one_event "run_1")
list_events-eq-drop_example = list_events-eq-drop "run_1" 0 one_event Reach-LogOk_example

abbrev second : RunEvent
second = new_event 31 "evt_2" "run_1" run_started "Again." nothing claimed one_event

list_events-add_event_example :
    (list_events "run_1" 1 (add_event 31 "evt_2" "run_1" run_started "Again." nothing one_event).1
      ≡ list_events "run_1" 1 one_event ++ second ∷ [])
    × (second.seq ≡ seq_of one_event "run_1" + 1)
unfolding new_event add_event lookup put
list_events-add_event_example =
    list_events-add_event 31 "evt_2" "run_1" run_started "Again." nothing 1 one_event {e = second}
      Reach-LogOk_example (omega arith) refl
