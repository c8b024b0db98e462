-- ===== src/ModelProvider/RateLimit.antt =====
-- `LocalRateLimiter` of services/agent-runtime/internal/modelprovider/rate_limiter.go. A channel of slots
-- is the number of its elements, and `none` where there is no channel. A call that would wait for a slot
-- is answered with `waits`, which is where the code stays until a slot is free or its context is over.
use nice_agent.Prelude.{
  ℕ, suc, ◌+◌, ◌-◌, ◌≤◌, ◌<◌, Bool, true, false, ◌||◌, ◌≡◌, Option, none, some, List, [], ◌∷◌, leb,
  eqb, if◌then◌else◌, All, arith, Bool-cases, inl, inr,
}

pub record LocalRateLimiter : Type 0 where
  pub requests_per_minute : ℕ
  pub max_concurrent : ℕ
  pub slots : Option ℕ
  pub window_start : ℕ
  pub window_used : ℕ

-- `time.Minute`
abbrev pub minute : ℕ
minute = 60000000000

-- The window that a request at `now` falls into.
abbrev pub in_window : ℕ → LocalRateLimiter → LocalRateLimiter
in_window now l =
    if eqb l.window_start 0 || leb minute (now - l.window_start)
    then record l { window_start = now; window_used = 0 }
    else l

-- `false` where the request is over the limit.
unfoldable pub reserve_request : ℕ → LocalRateLimiter → Bool × LocalRateLimiter
reserve_request now l =
    let v = in_window now l in
    if leb v.requests_per_minute v.window_used
    then (false, v)
    else (true, record v { window_used = v.window_used + 1 })

pub data Acquired : Type 0 where
  granted limited waits : Acquired

-- The `release` that `Acquire` returns.
unfoldable pub release : LocalRateLimiter → LocalRateLimiter
release l = elim l.slots [ none ↦ l | some n ↦ record l { slots = some (n - 1) } ]

-- What `Acquire` does once it has its slot.
acquire_rate : ℕ → LocalRateLimiter → Acquired × LocalRateLimiter
acquire_rate now l =
    let (fits, v) = reserve_request now l in
    if eqb l.requests_per_minute 0
    then (granted, l)
    else if fits
    then (granted, v)
    else (limited, release v)

unfoldable pub acquire : ℕ → LocalRateLimiter → Acquired × LocalRateLimiter
unfolding acquire_rate
acquire now l = elim l.slots [
  | none ↦ acquire_rate now l
  | some n ↦
      if leb l.max_concurrent n
      then (waits, l)
      else acquire_rate now (record l { slots = some (n + 1) })
]

-- The requests that are let through, of those at the given times.
abbrev pub grants : LocalRateLimiter → List ℕ → ℕ
grants l [] = 0
grants l (now ∷ times) =
    let (fits, v) = reserve_request now l in let n = grants v times in if fits then suc n else n

-- The times lie in the limiter's window.
abbrev pub InWindow : LocalRateLimiter → ℕ → Type 0
InWindow l now = (now - l.window_start) < minute

reserve_inside :
    (now : ℕ) (l : LocalRateLimiter)
    → 1 ≤ l.window_start
    → InWindow l now
    → reserve_request now l ≡ (
        if leb l.requests_per_minute l.window_used
        then (false, l)
        else (true, record l { window_used = l.window_used + 1 }))
unfolding reserve_request
reserve_inside now l s h = ground arith

-- Within a minute no more requests pass than the limit allows: of any requests in the window that a
-- limiter has begun, those that are let through are, with those that it has counted, at most
-- `requests_per_minute`.
pub grants_limit :
    (l : LocalRateLimiter) (times : List ℕ)
    → 1 ≤ l.window_start
    → l.window_used ≤ l.requests_per_minute
    → All (InWindow l) times
    → l.window_used + grants l times ≤ l.requests_per_minute
grants_limit l [] s u h = omega (arith, u)
grants_limit l (now ∷ times) s u (h, hs) =
    elim (Bool-cases (leb l.requests_per_minute l.window_used)) [
      | inl full ↦ rw (reserve_inside now l s h, full) (grants_limit l times s u hs)
      | inr room ↦
          let v = record l { window_used = l.window_used + 1 } in
          rw (reserve_inside now l s h, room)
            (omega (arith, grants_limit v times s (ground (arith, room)) hs))
    ]
