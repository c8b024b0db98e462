-- ===== src/Tests/MessageTests.antt =====
-- A message whose dispatcher fails, and one whose dispatcher takes it.
use nice_agent.Prelude.{
  to_lower, ◌+ℤ◌, true, none, pos, some, [], ◌∷◌, false, ◌==◌, ◌≡◌, refl, trim_space, lookup,
}
use nice_agent.Protocol.Audit.{ActorContext}
use nice_agent.ActionPolicy.{authorize, decide_requirement, default_action_policy, actor_can_write}
use nice_agent.Store.Usage.{
  sum_run_usage_tokens_since, sum_run_usage_since, sum_usages, usages_since,
}
use nice_agent.Store.Chats.{get_chat}
use nice_agent.Store.Policies.{get_project_quota_policy}
use nice_agent.Quota.Counters.{active_key, hour_key, token_key, safe_key, replace_breaks}
use nice_agent.Quota.Limiter.{
  Answer, granted, reserve_run_with_hint, reserve_active, active_counted, reserve_hour,
  hour_counted, reserve_tokens, tokens_counted, model_token_reservation,
}
use nice_agent.Server.Access.{actor_can_read_chat, actor_can_read_chat_id}
use nice_agent.Server.Admitted.{Charged, create_message-Charged}
use nice_agent.Server.{Request, Response}
use nice_agent.Server.Limits.{
  effective_quota_policy, check_token_quota, check_daily_usage_quota, QuotaOptions,
}
use nice_agent.Server.Reserving.{World, MessageDraw}
use nice_agent.Server.Messages.{create_message}
use nice_agent.Server.Unaccepted.{Costless}
use nice_agent.Server.Unspent.{create_message-Costless}
use nice_agent.Tests.Counters.{
  Memory, empty_memory, memory_store, memory_view, memory_law, marker_layout,
  marker_layout-IsMarkerLibrary,
}
use nice_agent.Tests.Data.{waiting}
use nice_agent.Tests.LimiterTests.{limiter, first}
use nice_agent.Tests.ServerTests.{server, draw, stranger, cancel_request}

abbrev owner : ActorContext
owner = record stranger { user_id = "demo-user" }

abbrev request : Request
request = record cancel_request { actor = owner; parts = "chat_1" ∷ "messages" ∷ [] }

abbrev quotas : QuotaOptions
quotas = record {
  max_concurrent_runs = pos 1;
  max_runs_per_hour = pos 5;
  max_tokens_per_day = pos 1000;
  max_tool_calls_per_day = pos 0;
  max_sandbox_seconds_per_day = pos 0;
  limiter = some limiter;
}

abbrev message_draw : MessageDraw
message_draw = record {
  draw = draw;
  failed = record draw { now = 80; event_id = "evt_2"; audit_id = "audit_2" };
  ids = record { msg = "msg_9"; run = "run_9"; ws = "ws_9" };
  since = record { day = 0; hour = 10 };
  hour_text = "2026010210";
  day_text = "20260102";
  tokens = pos 0;
}

abbrev world : World Memory
world = record { repo = waiting; counters = empty_memory }

abbrev answer : Response × World Memory
answer =
    create_message memory_store marker_layout server quotas (λ s. s)
      (λ run content. some "queue full") message_draw request (some "hello") "chat_1" world

name_kept : trim_space "run_9" ≡ "run_9"
unfolding trim_space
name_kept = refl

named : (trim_space "run_9" == "") ≡ false
unfolding trim_space
named = refl

create_message-Costless_example :
    Costless memory_store memory_view marker_layout server quotas limiter refl empty_memory answer
unfolding lookup
create_message-Costless_example =
    create_message-Costless limiter memory_law marker_layout-IsMarkerLibrary server quotas refl
      (λ s. s) (λ run content. some "queue full") message_draw request "chat_1" world named
      name_kept refl refl refl (some "hello")

-- The dispatcher takes the run.
abbrev reserved : Answer × Memory
reserved =
    reserve_run_with_hint memory_store limiter "2026010210" "20260102" owner
      (effective_quota_policy quotas "demo-project" waiting) (pos 0) empty_memory

first_granted : reserved ≡ (granted first, reserved.1)
unfolding reserve_run_with_hint reserve_active active_counted reserve_hour hour_counted
    reserve_tokens tokens_counted model_token_reservation active_key hour_key token_key safe_key
    replace_breaks trim_space ◌+ℤ◌ effective_quota_policy get_project_quota_policy lookup
first_granted = refl

readable : actor_can_read_chat_id owner "chat_1" waiting ≡ true
unfolding actor_can_read_chat_id actor_can_read_chat get_chat lookup
readable = refl

create_message-Charged_example :
    Charged limiter memory_law marker_layout-IsMarkerLibrary server quotas refl
      (λ s. s)
      (λ run content. none)
      (λ run content. refl)
      message_draw
      request
      "chat_1"
      world
      named
      name_kept
      refl
      first
      (create_message memory_store marker_layout server quotas
        (λ s. s)
        (λ run content. none)
        message_draw
        request
        (some "hello")
        "chat_1"
        world)
unfolding trim_space authorize decide_requirement lookup default_action_policy actor_can_write
    to_lower check_token_quota effective_quota_policy get_project_quota_policy
    sum_run_usage_tokens_since sum_run_usage_since sum_usages usages_since check_daily_usage_quota
create_message-Charged_example =
    create_message-Charged limiter memory_law marker_layout-IsMarkerLibrary server quotas refl
      (λ s. s) (λ run content. none) (λ run content. refl) message_draw request "chat_1" world named
      name_kept refl "hello" {held = first} {t = reserved.1} refl readable refl refl first_granted
