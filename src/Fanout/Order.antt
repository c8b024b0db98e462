-- ===== src/Fanout/Order.antt =====
-- What a client of the fan-out sees is in order.
use nice_agent.Prelude.{ℕ, ◌<◌, ◌≤◌, String, Bool, List, [], ◌∷◌, ◌++◌, arith}
use nice_agent.Protocol.Event.{RunEvent}
use nice_agent.Store.Events.{list_events}
use nice_agent.Fanout.{
  Relay, Input, context_done, local_closed, nudges_closed, local_event, nudged, forwarded, on_local,
  catch_up_one, catch_up, on_nudge, handle, relay_all,
}

-- The numbers of the events rise, from above `n` to at most `m`.
abbrev pub Rising : ℕ → List RunEvent → ℕ → Type 0
Rising n [] m = n ≤ m
Rising n (e ∷ es) m = (n < e.seq) × Rising e.seq es m

Rising-append :
    (n : ℕ) (es : List RunEvent) (m : ℕ) (e : RunEvent)
    → Rising n es m
    → m < e.seq
    → Rising n (es ++ e ∷ []) e.seq
Rising-append n [] m e h lt = (omega arith, omega arith)
Rising-append n (x ∷ es) m e h lt = (h.0, Rising-append x.seq es m e h.1 lt)

abbrev RelayOk : ℕ → Relay → Type 0
RelayOk n r = Rising n r.out r.last_seq

forwarded-RelayOk :
    (n : ℕ) (e : RunEvent) (r : Relay)
    → r.last_seq < e.seq
    → RelayOk n r
    → RelayOk n (forwarded e r)
unfolding forwarded
forwarded-RelayOk n e r lt h = Rising-append n r.out r.last_seq e h lt

catch_up_one-RelayOk :
    (n : ℕ) (taken : RunEvent → Bool) (e : RunEvent) (r : Relay)
    → RelayOk n r
    → RelayOk n (catch_up_one taken e r)
unfolding catch_up_one
catch_up_one-RelayOk n taken e r h = ground (arith, forwarded-RelayOk n e r)

catch_up-RelayOk :
    (n : ℕ) (taken : RunEvent → Bool) (es : List RunEvent) (r : Relay)
    → RelayOk n r
    → RelayOk n (catch_up taken es r)
unfolding catch_up
catch_up-RelayOk n taken [] r h = h
catch_up-RelayOk n taken (e ∷ es) r h =
    let one = catch_up_one-RelayOk n taken e r h in
    ground (arith, one, catch_up-RelayOk n taken es (catch_up_one taken e r) one)

on_local-RelayOk :
    (n : ℕ) (taken : RunEvent → Bool) (e : RunEvent) (r : Relay)
    → RelayOk n r
    → RelayOk n (on_local taken e r)
unfolding on_local
on_local-RelayOk n taken e r h = ground (arith, forwarded-RelayOk n e r)

handle-RelayOk :
    (n : ℕ) (id : String) (input : Input) (r : Relay) → RelayOk n r → RelayOk n (handle id input r)
unfolding handle on_nudge
handle-RelayOk n id context_done r h = ground arith
handle-RelayOk n id local_closed r h = ground arith
handle-RelayOk n id nudges_closed r h = ground arith
handle-RelayOk n id (local_event taken e) r h = ground (arith, on_local-RelayOk n taken e r h)
handle-RelayOk n id (nudged taken nudge s) r h =
    ground (arith, catch_up-RelayOk n taken (list_events id r.last_seq s) r h)

-- Whatever the local channel and the nudges deliver, in whatever order, and whatever the repository
-- lists, the numbers of the events that a client of the fan-out receives are strictly rising, all of
-- them are above the number that the subscription started from, and none is above the last number.
pub relay_all-Rising :
    (id : String) (inputs : List Input) (n : ℕ) (r : Relay)
    → Rising n r.out r.last_seq
    → Rising n (relay_all id inputs r).out (relay_all id inputs r).last_seq
unfolding relay_all
relay_all-Rising id [] n r h = h
relay_all-Rising id (input ∷ inputs) n r h =
    relay_all-Rising id inputs n (handle id input r) (handle-RelayOk n id input r h)
