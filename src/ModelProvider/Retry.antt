-- ===== src/ModelProvider/Retry.antt =====
-- `RetryTransport` of services/agent-runtime/internal/modelprovider/retry_transport.go. What each attempt
-- meets is an argument: the transport's answer, whether the request's context is over, and the error, if
-- any, in which a sleep ends. Reading the body of a request and the tracker are left out; the retries that
-- the tracker would observe are counted in the result.
use nice_agent.Prelude.{
  ℕ, zero, suc, ◌+◌, ◌-◌, ◌*◌, ◌^◌, String, Bool, not, ◌||◌, Option, none, some, ltb, eqb, ◌==◌,
  if◌then◌else◌, trim_space, or_else, value_or, true, false, ℤ, pos, pos_or,
}
use nice_agent.Mailer.{int64}
use nice_agent.ModelProvider.{
  ProviderError, provider_error_for_status, TransportError, classify_provider_error,
}

-- Durations in nanoseconds.
pub record RetryPolicy : Type 0 where
  pub max_attempts : ℤ
  pub base_delay : ℤ
  pub max_delay : ℤ

-- The policy with its defaults filled in, which are positive.
pub record NormalPolicy : Type 0 where
  pub max_attempts : ℕ
  pub base_delay : ℕ
  pub max_delay : ℕ

unfoldable pub normalize_retry_policy : RetryPolicy → NormalPolicy
normalize_retry_policy policy = record {
  max_attempts = pos_or policy.max_attempts 3;
  base_delay = pos_or policy.base_delay 200000000;
  max_delay = pos_or policy.max_delay 2000000000;
}

-- `body` is the start of the body that `responseSnippet` reads.
pub record Response : Type 0 where
  pub status_code : ℕ
  pub status : String
  pub body : String
  pub retry_after : String

pub data Answer : Type 0 where
  answered : Response → Answer
  refused : TransportError → Answer

unfoldable pub response_snippet : Response → String
response_snippet resp = or_else (trim_space resp.body) resp.status

unfoldable pub provider_error : (String → String) → Answer → Option ProviderError
provider_error redact (refused e) =
    let classified = classify_provider_error e in
    some (record classified { message = redact classified.message })
provider_error redact (answered resp) =
    if ltb resp.status_code 400
    then none
    else some (provider_error_for_status redact resp.status_code (response_snippet resp))

-- `err == nil && seconds > 0`, with 0 where that fails.
abbrev positive : Option ℤ → ℕ
positive none = 0
positive (some n) = pos_or n 0

-- `atoi` is `strconv.Atoi`; `until` is `time.Until` of what `http.ParseTime` reads.
unfoldable pub retry_after_delay : (String → Option ℤ) → (String → Option ℤ) → String → ℤ
retry_after_delay atoi until raw =
    let value = trim_space raw in
    let seconds = positive (atoi value) in
    if value == ""
    then pos 0
    else if eqb seconds 0
    then value_or (pos 0) (until value)
    else int64 (seconds * 1000000000)

abbrev least : ℕ → ℕ → ℕ
least a b = if ltb b a then b else a

-- The header of the response, where there is one and it gives a delay.
abbrev header_delay : (String → ℤ) → Answer → ℕ
header_delay after (refused e) = 0
header_delay after (answered resp) = pos_or (after resp.retry_after) 0

-- The product is exact, as Go's product of floats is while it fits.
unfoldable pub retry_delay : (String → ℤ) → NormalPolicy → ℕ → Answer → ℕ
retry_delay after policy attempt answer =
    let delay = header_delay after answer in
    if eqb delay 0
    then least (policy.base_delay * (2 ^ (attempt - 1))) policy.max_delay
    else least delay policy.max_delay

-- What attempt number `k` meets.
pub record Weather : Type 0 where
  pub answer : ℕ → Answer
  pub over : ℕ → Bool
  pub sleep : ℕ → ℕ → Option String

-- `t.sleep`, which returns at once where there is nothing to wait for.
abbrev pub sleep : Weather → ℕ → ℕ → Option String
sleep w attempt duration = if eqb duration 0 then none else w.sleep attempt duration

pub data Outcome : Type 0 where
  responded : Answer → Outcome
  failed : ProviderError → Outcome
  interrupted : String → Outcome
  out_of_attempts : Outcome

-- How a round trip ends, after how many attempts and retries.
pub record Trip : Type 0 where
  pub outcome : Outcome
  pub attempts : ℕ
  pub retries : ℕ

module _ (redact : String → String) (after : String → ℤ) (policy : NormalPolicy) (w : Weather) where
  -- The loop, at `attempt`, with as much fuel as attempts are left.
  unfoldable pub attempt_from : ℕ → ℕ → ℕ → Trip
  attempt_from zero attempt retries = record {
    outcome = out_of_attempts;
    attempts = attempt - 1;
    retries = retries;
  }
  attempt_from (suc fuel) attempt retries = elim (provider_error redact (w.answer attempt)) [
    | none ↦ record {
      outcome = responded (w.answer attempt);
      attempts = attempt;
      retries = retries;
    }
    | some e ↦ elim (not e.retryable || eqb attempt policy.max_attempts || w.over attempt) [
      | true ↦ record { outcome = failed e; attempts = attempt; retries = retries }
      | false ↦ elim (sleep w attempt (retry_delay after policy attempt (w.answer attempt))) [
        | some e ↦ record { outcome = interrupted e; attempts = attempt; retries = retries + 1 }
        | none ↦ attempt_from fuel (attempt + 1) (retries + 1)
      ]
    ]
  ]

  unfoldable pub round_trip : Trip
  round_trip = attempt_from policy.max_attempts 1 0
