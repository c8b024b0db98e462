-- ===== src/Tests/LimiterTests.antt =====
-- Reservations of runs, with a counter store in memory.
use nice_agent.Prelude.{
  pos, ◌+ℤ◌, ◌≤ℤ◌, is_positive, ◌==◌, ◌&&◌, true, false, ◌≡◌, ◌⊎◌, refl, [], trim_space,
}
use nice_agent.Protocol.Audit.{ActorContext}
use nice_agent.Protocol.Policy.{ProjectQuotaPolicy}
use nice_agent.Protocol.Run.{RunUsage, zero_run_usage}
use nice_agent.Quota.Counters.{active_key, hour_key, token_key, safe_key, replace_breaks}
use nice_agent.Quota.Limiter.{
  RedisLimiter, Reservation, no_reservation, Answer, granted, reserve_run_with_hint, reserve_active,
  active_counted, reserve_hour, hour_counted, reserve_tokens, tokens_counted,
  model_token_reservation, commit, release_run,
}
use nice_agent.Quota.Reserved.{Exact}
use nice_agent.Quota.Exact.{reserve_run-Exact}
use nice_agent.Quota.Room.{reserve_run-room}
use nice_agent.Quota.Cycle.{Cycled}
use nice_agent.Quota.Whole.{release-reserve_run}
use nice_agent.Tests.Counters.{
  Memory, empty_memory, memory_store, memory_law, marker_layout, marker_layout-IsMarkerLibrary,
}
use nice_agent.Tests.Data.{claimed}

abbrev pub limiter : RedisLimiter
limiter = record { key_prefix = "quota"; model_token_reservation_per_run = pos 100 }

abbrev actor : ActorContext
actor = record {
  user_id = "demo-user";
  email = "";
  name = "";
  identity_provider = "";
  identity_issuer = "";
  identity_subject = "";
  project_id = "demo-project";
  org_id = "";
  roles = [];
}

abbrev policy : ProjectQuotaPolicy
policy = record {
  project_id = "demo-project";
  max_concurrent_runs = pos 1;
  max_runs_per_hour = pos 5;
  max_model_tokens_per_day = pos 1000;
  max_tool_calls_per_day = pos 0;
  max_sandbox_seconds_per_day = pos 0;
  created_at = 0;
  updated_at = 0;
}

abbrev reserve : Memory → Answer × Memory
reserve = reserve_run_with_hint memory_store limiter "2026010210" "20260102" actor policy (pos 0)

abbrev pub first : Reservation
first = record no_reservation {
  active_key = "quota:active:demo-project:demo-user";
  hour_key = "quota:runs_per_hour:demo-project:demo-user:2026010210";
  token_key = "quota:model_tokens_per_day:demo-project:demo-user:20260102";
  reserved_tokens = pos 100;
  reserved_active = true;
  reserved_hour = true;
}

first_granted : reserve empty_memory ≡ (granted first, (reserve empty_memory).1)
unfolding reserve_run_with_hint reserve_active active_counted reserve_hour hour_counted
    reserve_tokens tokens_counted model_token_reservation active_key hour_key token_key safe_key
    replace_breaks trim_space ◌+ℤ◌
first_granted = refl

-- The second run is one too many.
reserve_run-Exact_example :
    Exact memory_law (reserve empty_memory).1 (reserve (reserve empty_memory).1)
reserve_run-Exact_example =
    reserve_run-Exact limiter memory_law "2026010210" "20260102" actor policy (pos 0)
      (reserve empty_memory).1

reserve_run-room_example :
    ((is_positive (pos 1) ≡ false)
      ⊎ (empty_memory.counters (active_key "quota" "demo-project" "demo-user") +ℤ pos 1 ≤ℤ pos 1))
    × ((is_positive (pos 5) ≡ false)
        ⊎ (empty_memory.counters (hour_key "quota" "demo-project" "demo-user" "2026010210") +ℤ pos 1
            ≤ℤ pos 5))
    × (((is_positive (pos 1000) && is_positive (model_token_reservation limiter (pos 0))) ≡ false)
        ⊎ (empty_memory.counters (token_key "quota" "demo-project" "demo-user" "20260102")
              +ℤ model_token_reservation limiter (pos 0)
            ≤ℤ pos 1000))
reserve_run-room_example =
    reserve_run-room limiter memory_law actor policy "2026010210" "20260102" (pos 0) empty_memory
      {r = first} {t = (reserve empty_memory).1} first_granted

abbrev used : RunUsage
used = record zero_run_usage { input_tokens = 30; output_tokens = 12 }

name_kept : trim_space "run_1" ≡ "run_1"
unfolding trim_space
name_kept = refl

named : (trim_space claimed.id == "") ≡ false
unfolding trim_space
named = refl

release-reserve_run_example :
    ((commit memory_store marker_layout limiter "run_1" first (reserve empty_memory).1).0 ≡ true)
    × Cycled limiter memory_law marker_layout-IsMarkerLibrary claimed "demo-project" used named
        empty_memory first
        (release_run memory_store marker_layout limiter claimed "demo-project" used
          (commit memory_store marker_layout limiter "run_1" first (reserve empty_memory).1).2)
release-reserve_run_example =
    release-reserve_run limiter memory_law marker_layout-IsMarkerLibrary "2026010210" "20260102"
      actor policy (pos 0) empty_memory claimed used {r = first} {s = (reserve empty_memory).1}
      named first_granted refl name_kept refl
