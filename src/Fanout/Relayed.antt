-- ===== src/Fanout/Relayed.antt =====
-- The relay of eventbus.go beside the repository, which refines the log of the run: what a client sees
-- is a segment of the log.
use nice_agent.Prelude.{
  ℕ, suc, ◌<◌, ◌≤◌, String, true, ◌≡◌, refl, sym, ap, ◌∙◌, subst, inl, inr, ◌⊎◌, List, ◌∷◌, ◌++◌,
  length, drop, length-append, arith,
}
use nice_agent.Protocol.Event.{RunEvent}
use nice_agent.Store.{Store}
use nice_agent.Store.Events.{events_of}
use nice_agent.Store.Steps.{Step, Reach, here, next}
use nice_agent.Store.Steps.Numbered.{LogOk, Step-LogOk, Reach-LogOk}
use nice_agent.Store.Steps.Growth.{Step-Extends}
use nice_agent.Fanout.{
  EventNudge, Relay, nudges_closed, local_event, nudged, on_local, on_nudge, handle, new_relay,
}
use nice_agent.Fanout.CatchUp.{all_taken, seq_at, on_nudge-Caught}
use nice_agent.Fanout.Segment.{
  SegmentOk, grown-SegmentOk, on_local-SegmentOk, on_nudge-SegmentOk, started-SegmentOk,
}

-- A run of the goroutine beside the repository. `Relayed s0 id base s delivered r` says that from the
-- store `s0`, where the local channel was registered, the store `s` and the state `r` have been reached;
-- `base` is the number that the relay started from, and the local channel, which is never full, has
-- delivered the first `delivered` events of the log: it has them in the order of their numbers, as when
-- no two calls of `AddEvent` for the run overlap, since `AddEvent` sends after it has released the lock.
pub data Relayed (s0 : Store) (id : String) (base : ℕ) : Store → ℕ → Relay → Type 0 where
  started :
      {s : Store}
      → Reach s0 s
      → (new_relay id s).last_seq ≡ base
      → Relayed s0 id base s (length (events_of s0 id)) (new_relay id s)
  stored :
      {s t : Store} {delivered : ℕ} {r : Relay}
      → Relayed s0 id base s delivered r
      → Step s t
      → Relayed s0 id base t delivered r
  local_received :
      {s : Store} {delivered : ℕ} {r : Relay} (e : RunEvent) (rest : List RunEvent)
      → Relayed s0 id base s delivered r
      → drop delivered (events_of s id) ≡ e ∷ rest
      → Relayed s0 id base s (suc delivered) (handle id (local_event all_taken e) r)
  nudge_received :
      {s : Store} {delivered : ℕ} {r : Relay} (nudge : EventNudge)
      → Relayed s0 id base s delivered r
      → Relayed s0 id base s delivered (handle id (nudged all_taken nudge s) r)
  nudges_ended :
      {s : Store} {delivered : ℕ} {r : Relay}
      → Relayed s0 id base s delivered r
      → Relayed s0 id base s delivered (handle id nudges_closed r)

handle-local :
    (id : String) (e : RunEvent) (r : Relay)
    → r.running ≡ true
    → r.local_open ≡ true
    → handle id (local_event all_taken e) r ≡ on_local all_taken e r
unfolding handle
handle-local id e r on local = ground arith

handle-nudged :
    (id : String) (nudge : EventNudge) (s : Store) (r : Relay)
    → (handle id (nudged all_taken nudge s) r ≡ r)
      ⊎ (handle id (nudged all_taken nudge s) r ≡ on_nudge all_taken nudge id s r)
unfolding handle
handle-nudged id nudge s r = ground arith

handle-open :
    (id : String) (nudge : EventNudge) (s : Store) (r : Relay)
    → r.running ≡ true
    → r.nudges_open ≡ true
    → handle id (nudged all_taken nudge s) r ≡ on_nudge all_taken nudge id s r
unfolding handle
handle-open id nudge s r on nudges = ground arith

ended-SegmentOk :
    (id : String) (base : ℕ) (log : List RunEvent) (d : ℕ) (r : Relay)
    → SegmentOk base log d r
    → SegmentOk base log d (handle id nudges_closed r)
unfolding handle
ended-SegmentOk id base log d r h =
    rw (h.running, h.local_open)
      (record {
        first = h.first;
        last = h.last;
        behind = h.behind;
        segment = h.segment;
        running = refl;
        local_open = refl;
      })

-- The log between the two stores of the subscription only grows.
Reach-grows :
    {s t : Store} (id : String) → Reach s t → length (events_of s id) ≤ length (events_of t id)
Reach-grows id here = omega arith
Reach-grows {s} id (next {t} reach step) =
    let (more, q) = Step-Extends id step in
    omega (arith, Reach-grows id reach, ap length q, length-append (events_of t id) more)

Relayed-SegmentOk :
    {s0 : Store} (id : String) (base : ℕ) {s : Store} (d : ℕ) {r : Relay}
    → LogOk s0 id
    → Relayed s0 id base s d r
    → LogOk s id × SegmentOk base (events_of s id) d r
Relayed-SegmentOk id base d ok (started {s} reach q) =
    let ok' = Reach-LogOk id reach ok in
    (
      ok',
      subst (λ b. SegmentOk b (events_of s id) d (new_relay id s)) q
          (started-SegmentOk id s d ok' (Reach-grows id reach)),
    )
Relayed-SegmentOk id base d ok (stored {s} {t} {r = r} run step) =
    let (ok', h) = Relayed-SegmentOk id base d ok run in
    let (more, q) = Step-Extends id step in
    (
      Step-LogOk id step ok',
      subst (λ log. SegmentOk base log d r) (sym q)
          (grown-SegmentOk base (events_of s id) more d r h),
    )
Relayed-SegmentOk id base d ok (local_received {s} {delivered} {r} e rest run front) =
    let (ok', h) = Relayed-SegmentOk id base delivered ok run in
    (
      ok',
      subst (SegmentOk base (events_of s id) (suc delivered))
          (sym (handle-local id e r h.running h.local_open))
          (on_local-SegmentOk base (events_of s id) delivered r e rest
            (seq_at id delivered (events_of s id) e rest ok'.numbered front) front h),
    )
Relayed-SegmentOk id base d ok (nudge_received {s} {r = r} nudge run) =
    let (ok', h) = Relayed-SegmentOk id base d ok run in
    (
      ok',
      elim (handle-nudged id nudge s r) [
        | inl q ↦ subst (SegmentOk base (events_of s id) d) (sym q) h
        | inr q ↦
            subst (SegmentOk base (events_of s id) d) (sym q)
              (on_nudge-SegmentOk id base nudge s d r ok' h)
      ],
    )
Relayed-SegmentOk id base d ok (nudges_ended {s} {r = r} run) =
    let (ok', h) = Relayed-SegmentOk id base d ok run in
    (ok', ended-SegmentOk id base (events_of s id) d r h)

-- The log behind the number that the relay started from is what the client has received, followed by
-- the log behind the last number: from a sound log on, as long as the client takes what it is sent, the
-- local channel is never full, and no two calls of `AddEvent` for the run overlap, so that the channel
-- delivers the events in order, nothing is left out, doubled or out of order, however nudges and local
-- events are mixed.
pub Relayed-segment :
    {s0 s : Store} (id : String) (base d : ℕ) {r : Relay}
    → LogOk s0 id
    → Relayed s0 id base s d r
    → drop base (events_of s id) ≡ r.out ++ drop r.last_seq (events_of s id)
Relayed-segment id base d ok run = (Relayed-SegmentOk id base d ok run).1.segment

-- From a sound log on, as long as the client takes what it is sent, the local channel is never full, and
-- no two calls of `AddEvent` for the run overlap: a nudge with a number behind the last one, on an open
-- channel, brings the client the whole log behind the number that the relay started from.
pub handle-nudged_whole :
    {s0 s : Store} (id : String) (base d : ℕ) {r : Relay} (nudge : EventNudge)
    → LogOk s0 id
    → Relayed s0 id base s d r
    → r.nudges_open ≡ true
    → r.last_seq < nudge.seq
    → (handle id (nudged all_taken nudge s) r).out ≡ drop base (events_of s id)
handle-nudged_whole {s = s} id base d {r} nudge ok run nudges lt =
    let (ok', h) = Relayed-SegmentOk id base d ok run in
    ap Relay.out (handle-open id nudge s r h.running nudges)
    ∙ (on_nudge-Caught id nudge s r ok' h.running lt).out
    ∙ sym h.segment
