-- ===== src/ModelProvider/Attempts.antt =====
-- How often a request is tried.
use nice_agent.Prelude.{
  ℕ, zero, suc, ◌+◌, ◌≤◌, ◌<◌, String, ◌≡◌, true, false, Bool, eqb, Bool-cases, inl, inr, none,
  some, ◌-◌, ap, ap₂, ◌∙◌, ℤ, arith,
}
use nice_agent.ModelProvider.{ProviderError}
use nice_agent.ModelProvider.Retry.{
  NormalPolicy, Weather, sleep, provider_error, retry_delay, Outcome, responded, out_of_attempts,
  attempt_from, round_trip,
}

abbrev pub is_out : Outcome → Bool
is_out out_of_attempts = true
is_out _ = false

-- Attempt `k` is answered with an error that is worth another attempt, and the sleep after it ends well.
pub record Retries (redact : String → String) (after : String → ℤ) (policy : NormalPolicy)
    (w : Weather) (k : ℕ) : Type 0 where
  pub error : ProviderError
  pub met : provider_error redact (w.answer k) ≡ some error
  pub worth : error.retryable ≡ true
  pub wanted : w.over k ≡ false
  pub slept : sleep w k (retry_delay after policy k (w.answer k)) ≡ none

module _ (redact : String → String) (after : String → ℤ) (policy : NormalPolicy) (w : Weather) where
  attempt-retry :
      (fuel attempt retries : ℕ)
      → Retries redact after policy w attempt
      → eqb attempt policy.max_attempts ≡ false
      → attempt_from redact after policy w (suc fuel) attempt retries
        ≡ attempt_from redact after policy w fuel (attempt + 1) (retries + 1)
  unfolding attempt_from
  attempt-retry fuel attempt retries h more = grind (arith, h.met, h.worth, h.wanted, h.slept, more)

  attempt-responded :
      (fuel attempt retries : ℕ)
      → provider_error redact (w.answer attempt) ≡ none
      → attempt_from redact after policy w (suc fuel) attempt retries
        ≡ record { outcome = responded (w.answer attempt); attempts = attempt; retries = retries }
  unfolding attempt_from
  attempt-responded fuel attempt retries h = ground arith

  responds_from :
      (k fuel attempt retries : ℕ)
      → fuel + attempt ≡ policy.max_attempts + 1
      → attempt ≤ k
      → k ≤ policy.max_attempts
      → ((j : ℕ) → attempt ≤ j → j < k → Retries redact after policy w j)
      → provider_error redact (w.answer k) ≡ none
      → attempt_from redact after policy w fuel attempt retries ≡ record {
        outcome = responded (w.answer k);
        attempts = k;
        retries = retries + (k - attempt);
      }
  responds_from k zero attempt retries q le top before fine = ground (arith, q, le, top)
  responds_from k (suc fuel) attempt retries q le top before fine =
      elim (Bool-cases (eqb attempt k)) [
        | inl same ↦
            let here : attempt ≡ k = ground (arith, same) in
            attempt-responded fuel attempt retries (rw here fine)
            ∙ ap₂ (λ n m. record { outcome = responded (w.answer n); attempts = n; retries = m })
                here (omega (arith, here))
        | inr less ↦
            attempt-retry fuel attempt retries
              (before attempt (omega arith) (ground (arith, less, le)))
              (ground (arith, less, le, top))
            ∙ responds_from k fuel (attempt + 1) (retries + 1) (omega (arith, q))
                (ground (arith, less, le)) top (λ j a b. before j (omega (arith, a)) b) fine
            ∙ ap (λ m. record { outcome = responded (w.answer k); attempts = k; retries = m })
                (ground (arith, less, le))
      ]

  -- An answer comes through: if attempt `k`, within the attempts that the policy allows, is answered
  -- without an error, and each attempt before it with an error that is worth another, in a context that
  -- is not over and with a sleep that ends well, then the round trip returns the answer of attempt `k`,
  -- after `k` attempts and `k - 1` retries.
  pub round_trip_responds :
      (k : ℕ)
      → 1 ≤ k
      → k ≤ policy.max_attempts
      → ((j : ℕ) → 1 ≤ j → j < k → Retries redact after policy w j)
      → provider_error redact (w.answer k) ≡ none
      → round_trip redact after policy w
        ≡ record { outcome = responded (w.answer k); attempts = k; retries = k - 1 }
  unfolding round_trip
  round_trip_responds k one top before fine =
      responds_from k policy.max_attempts 1 0 (omega arith) one top before fine
      ∙ ap (λ m. record { outcome = responded (w.answer k); attempts = k; retries = m })
          (omega arith)
