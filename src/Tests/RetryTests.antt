-- ===== src/Tests/RetryTests.antt =====
-- The retries of a model request.
use nice_agent.Prelude.{
  ◌+◌, [], ◌∷◌, ℕ, ◌-◌, ◌≤◌, ◌<◌, String, ◌≡◌, refl, true, false, eqb, none, if◌then◌else◌, ℤ, pos,
  arith, trim_space, subst,
}
use nice_agent.ModelProvider.{rate_limited, classify_http_status, provider_error_for_status}
use nice_agent.ModelProvider.Retry.{
  RetryPolicy, NormalPolicy, answered, Response, Weather, provider_error, response_snippet,
  round_trip, responded,
}
use nice_agent.ModelProvider.RateLimit.{LocalRateLimiter, grants, grants_limit}
use nice_agent.ModelProvider.Attempts.{Retries, round_trip_responds}

abbrev limited : Response
limited = record { status_code = 429; status = "429"; body = "slow down"; retry_after = "" }

abbrev fine : Response
fine = record { status_code = 200; status = "200"; body = "hello"; retry_after = "" }

-- The provider limits the first request and answers the second.
abbrev weather : Weather
weather = record {
  answer = λ n. if eqb n 1 then answered limited else answered fine;
  over = λ n. false;
  sleep = λ n d. none;
}

abbrev defaults : RetryPolicy
defaults = record { max_attempts = pos 0; base_delay = pos 0; max_delay = pos 0 }

abbrev keep_text : String → String
keep_text s = s

abbrev no_delay : String → ℤ
no_delay s = pos 0

abbrev policy : NormalPolicy
policy = record { max_attempts = 3; base_delay = 200000000; max_delay = 2000000000 }

first-Retries : Retries keep_text no_delay policy weather 1
unfolding provider_error provider_error_for_status classify_http_status response_snippet trim_space
first-Retries = record {
  error = record {
    class = rate_limited;
    status_code = 429;
    retryable = true;
    message = "slow down";
  };
  met = refl;
  worth = refl;
  wanted = refl;
  slept = ground arith;
}

only_first : (j : ℕ) → 1 ≤ j → j < 2 → Retries keep_text no_delay policy weather j
only_first j a b =
    let one : 1 ≡ j = omega (arith, a, b) in
    subst (Retries keep_text no_delay policy weather) one first-Retries

round_trip_responds_example :
    round_trip keep_text no_delay policy weather
    ≡ record { outcome = responded (answered fine); attempts = 2; retries = 2 - 1 }
unfolding provider_error
round_trip_responds_example =
    round_trip_responds keep_text no_delay policy weather 2 (omega arith) (omega arith) only_first
      refl

abbrev limiter : LocalRateLimiter
limiter = record {
  requests_per_minute = 2;
  max_concurrent = 0;
  slots = none;
  window_start = 100;
  window_used = 1;
}

grants_limit_example : 1 + grants limiter (150 ∷ 160 ∷ 170 ∷ []) ≤ 2
grants_limit_example =
    grants_limit limiter (150 ∷ 160 ∷ 170 ∷ []) (omega arith) (omega arith)
      (omega arith, (omega arith, (omega arith, tt)))
