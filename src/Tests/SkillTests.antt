-- ===== src/Tests/SkillTests.antt =====
-- Skills, the redaction of what is kept, and the usage of a project.
use mathlib.Core.Option
use nice_agent.Prelude.{
  ℕ, List, pair_key, true, false, ◌≡◌, ◌↔◌, refl, [], ◌∷◌, lookup, All, total, arith, eq_iff,
}
use nice_agent.Protocol.Json.{Json, str, obj, end, field}
use nice_agent.Protocol.Run.{zero_run_usage}
use nice_agent.Protocol.Skill.{Skill, user_scope, http_kind, skill_enabled, medium_risk}
use nice_agent.Platform.Redact.{redact_value, find, Blank, redact_value-exact}
use nice_agent.Store.{Store, new_store}
use nice_agent.Store.Skills.{set_skill_enabled, with_enabled, list_runtime_skills_for_user}
use nice_agent.Store.Skills.Disabled.{SkillsKeyed, IsOther, list_runtime-set_skill_enabled}
use nice_agent.Store.Usage.{usages_since, list_run_usage_buckets_since}
use nice_agent.Store.Usage.Totals.{counters, total-list_run_usage_buckets}
use nice_agent.Tests.Data.{waiting}

abbrev document : Json
document = obj (field "api_key" (str "k-123456") (field "path" (str "/tmp") end))

redact_value-exact_example :
    Blank (λ c. c) (redact_value (λ c. c) document)
    × ((redact_value (λ c. c) document ≡ document) ↔ Blank (λ c. c) document)
    × ((path : List ℕ)
        → find (λ c. c) path (redact_value (λ c. c) document)
          ≡ Option.map (redact_value (λ c. c)) (find (λ c. c) path document))
redact_value-exact_example = redact_value-exact (λ c. c) document

abbrev weather : Skill
weather = record {
  id = "skill_1";
  slug = "skill_1";
  scope = user_scope;
  kind = http_kind;
  owner_user_id = "demo-user";
  project_id = "demo-project";
  status = skill_enabled;
  current_version_id = "skv_1";
  name = "Weather";
  version = "1.0.0";
  description = "The weather of a place.";
  risk = medium_risk;
  requires_auth = false;
  input_schema = "";
  output_schema = "";
  annotations = "";
  runtime_config = "";
  enabled = true;
}

abbrev with_weather : Store
with_weather = record (new_store 5) {
  skills = ("skill_1", weather) ∷ [];
  skill_grants = (pair_key "demo-user" "demo-project", "skill_1" ∷ []) ∷ [];
}

weather-SkillsKeyed : SkillsKeyed with_weather.skills
unfolding lookup
weather-SkillsKeyed key skill q = grind (arith, eq_iff)

list_runtime-set_skill_enabled_example : All (IsOther "skill_1") (
    list_runtime_skills_for_user "demo-user" "demo-project"
      (set_skill_enabled "demo-user" "skill_1" false with_weather).1)
unfolding set_skill_enabled lookup
list_runtime-set_skill_enabled_example =
    list_runtime-set_skill_enabled "demo-user" "skill_1" "demo-user" "demo-project" with_weather
      {skill = with_enabled false weather} weather-SkillsKeyed refl

abbrev used : Store
used = record waiting {
  run_usage = ("run_1", record zero_run_usage { input_tokens = 3; output_tokens = 4 }) ∷ [];
}

total-list_run_usage_buckets_example :
    All
      (λ c.
        total c.0 (list_run_usage_buckets_since "demo-project" 0 used)
        ≡ total c.1 (usages_since (λ run. true) "demo-project" 0 used.run_usage used))
      counters
total-list_run_usage_buckets_example = total-list_run_usage_buckets "demo-project" 0 used
