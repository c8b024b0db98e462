-- ===== src/Dispatch/Memory.antt =====
-- `MemoryRunQueue` of services/control-plane/internal/dispatch/queue.go: a buffered channel.
use nice_agent.Prelude.{
  ℕ, ℤ, Bool, true, false, List, [], ◌∷◌, ◌++◌, pos_or, ltb, length, if◌then◌else◌,
}
use nice_agent.Dispatch.{QueuedRun}

pub record MemoryRunQueue : Type 0 where
  pub size : ℕ
  pub waiting : List QueuedRun
  pub closed : Bool

unfoldable pub new_memory_run_queue : ℤ → MemoryRunQueue
new_memory_run_queue size = record { size = pos_or size 128; waiting = []; closed = false }

-- `blocks`: the call waits for the other side or for the end of its context.
pub data Outcome {ℓ} (A : Type ℓ) : Type ℓ where
  done : A → Outcome A
  queue_closed : Outcome A
  blocks : Outcome A

unfoldable pub enqueue : QueuedRun → MemoryRunQueue → Outcome (Unit {0}) × MemoryRunQueue
enqueue run q =
    if q.closed
    then (queue_closed, q)
    else if ltb (length q.waiting) q.size
    then (done tt, record q { waiting = q.waiting ++ run ∷ [] })
    else (blocks, q)

-- A closed channel is drained before it reports its end.
unfoldable pub dequeue : MemoryRunQueue → Outcome QueuedRun × MemoryRunQueue
dequeue q = elim q.waiting [
  | [] ↦ (if q.closed then queue_closed else blocks, q)
  | run ∷ waiting ↦ (done run, record q { waiting = waiting })
]

unfoldable pub close : MemoryRunQueue → MemoryRunQueue
close q = record q { closed = true }
