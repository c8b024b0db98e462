-- ===== src/Tools/Policy.antt =====
-- services/agent-runtime/internal/tools/tool_bridge.go: which tools a run gets, whether a call passes the
-- risk policy, and how often a tool may be called. `unmarshal` reads a JSON object.
use nice_agent.Prelude.{
  ℕ, ◌+◌, ℤ, pos, negsuc, String, Bool, ◌||◌, not, map, true, false, Option, none, some, List, [],
  ◌∷◌, Map, Char, lookup, put, value_or, leb, eqb, ◌==◌, concat, trim_space, to_lower,
  if◌then◌else◌,
}
use Prim.Native.Char.{code}
use nice_agent.Protocol.Json.{Json, bool, str, Fields}
use nice_agent.Protocol.Skill.{
  Skill, SkillRisk, high_risk, unset_risk, RuntimeSkill, RunRequest, system_scope, builtin_kind,
  unset_skill_status,
}
use nice_agent.Protocol.Policy.{normalize_skill_risk_policy}
use nice_agent.SkillManifest.Mcp.{find_field}

abbrev pub is_high : SkillRisk → Bool
is_high high_risk = true
is_high risk = false

-- `strings.EqualFold(strings.TrimSpace(value), "true")`, with a text compared in lower case
abbrev flag_of : (Char → Char) → Option Json → Bool
flag_of lower (some (bool b)) = b
flag_of lower (some (str s)) = to_lower lower (trim_space s) == "true"
flag_of lower other = false

unfoldable pub bool_annotation : (Char → Char) → Option Fields → String → Bool
bool_annotation lower none key = false
bool_annotation lower (some values) key = flag_of lower (find_field key values)

pub record SkillAnnotationHints : Type 0 where
  pub read_only_hint : Bool
  pub destructive_hint : Bool

-- What the model meets outside: the table of characters and `json.Unmarshal`.
pub record AnnotationLibrary : Type 0 where
  pub lower : Char → Char
  pub unmarshal : String → Option Fields

unfoldable pub skill_annotations : AnnotationLibrary → Skill → SkillAnnotationHints
skill_annotations lib skill = record {
  read_only_hint = bool_annotation lib.lower (lib.unmarshal skill.annotations) "readOnlyHint";
  destructive_hint = bool_annotation lib.lower (lib.unmarshal skill.annotations) "destructiveHint";
}

pub record SkillRiskPolicyDecision : Type 0 where
  pub allowed : Bool
  pub policy : String
  pub reason : String

abbrev pub allows : String → SkillRiskPolicyDecision
allows policy = record { allowed = true; policy = policy; reason = "" }

abbrev pub denies : String → String → SkillRiskPolicyDecision
denies policy reason = record { allowed = false; policy = policy; reason = reason }

-- The read-only policy.
unfoldable pub evaluate_read_only : String → Skill → SkillAnnotationHints → SkillRiskPolicyDecision
evaluate_read_only policy skill hints =
    if is_high skill.risk
    then denies policy "skill risk is high"
    else if hints.destructive_hint
    then denies policy "skill is marked destructive"
    else if not hints.read_only_hint
    then denies policy "skill is not marked read-only"
    else allows policy

unfoldable pub evaluate_skill_risk_policy :
    AnnotationLibrary → String → Skill → SkillRiskPolicyDecision
evaluate_skill_risk_policy lib policy skill =
    let hints = skill_annotations lib skill in
    if policy == "" || policy == "allow"
    then allows "allow"
    else if policy == "block-high"
    then (if is_high skill.risk then denies policy "skill risk is high" else allows policy)
    else if policy == "block-destructive"
    then (if hints.destructive_hint
        then denies policy "skill is marked destructive"
        else allows policy)
    else if policy == "read-only"
    then evaluate_read_only policy skill hints
    else allows "allow"

unfoldable pub safe_metric_reason : String → String
safe_metric_reason reason =
    let trimmed = trim_space reason in
    if trimmed == "skill risk is high"
    then "high_risk"
    else if trimmed == "skill is marked destructive"
    then "destructive"
    else if trimmed == "skill is not marked read-only"
    then "not_read_only"
    else "unknown"

-- `strings.NewReplacer(".", "_", "-", "_", ":", "_")`
abbrev replaced : Char → String → String
replaced c rest =
    if eqb (code c) 46 || eqb (code c) 45 || eqb (code c) 58
    then concat "_" rest
    else String.◌∷◌ c rest

unfoldable pub replace_all : String → String
replace_all String.[] = ""
replace_all (String.◌∷◌ c s) = replaced c (replace_all s)

unfoldable pub tool_name_for_skill_id : String → String
tool_name_for_skill_id id =
    let name = replace_all id in if name == "" then "unknown_skill" else name

unfoldable pub skill_id_for_tool_name : String → List RuntimeSkill → String
skill_id_for_tool_name name [] = name
skill_id_for_tool_name name (s ∷ skills) =
    let rest = skill_id_for_tool_name name skills in
    if tool_name_for_skill_id s.skill.id == name then s.skill.id else rest

-- A skill of which the request has only the identifier.
unfoldable pub builtin_skill : String → RuntimeSkill
builtin_skill id = record {
  skill = record {
    id = id;
    slug = "";
    scope = system_scope;
    kind = builtin_kind;
    owner_user_id = "";
    project_id = "";
    status = unset_skill_status;
    current_version_id = "";
    name = id;
    version = "";
    description = "";
    risk = unset_risk;
    requires_auth = false;
    input_schema = "";
    output_schema = "";
    annotations = "";
    runtime_config = "";
    enabled = true;
  };
  secrets = [];
  secret_materials = [];
}

-- A window of a limiter; the zero time is 0.
pub record SkillRateWindow : Type 0 where
  pub start : ℕ
  pub count : ℕ

-- A minute in nanoseconds.
abbrev minute : ℕ
minute = 60000000000

abbrev zero_window : SkillRateWindow
zero_window = record { start = 0; count = 0 }

-- `Allow` of the local limiter for a positive limit.
unfoldable pub allow_limited : ℕ → String → ℕ → Map SkillRateWindow → Bool × Map SkillRateWindow
allow_limited now key limit windows =
    let window = value_or zero_window (lookup key windows) in
    if eqb window.start 0 || leb (window.start + minute) now
    then (true, put key (record { start = now; count = 1 }) windows)
    else if leb limit window.count
    then (false, windows)
    else (true, put key (record window { count = window.count + 1 }) windows)

-- `Allow`: whether the call may go on, and the windows after it.
unfoldable pub allow : ℕ → String → ℤ → Map SkillRateWindow → Bool × Map SkillRateWindow
allow now key (negsuc n) windows = (true, windows)
allow now key (pos limit) windows =
    if eqb limit 0 then (true, windows) else allow_limited now key limit windows

-- The skills of a request, or those of its identifiers where it has none.
unfoldable pub request_skills : RunRequest → List RuntimeSkill
request_skills request = elim request.skills [
  | s ∷ skills ↦ s ∷ skills
  | [] ↦ map builtin_skill request.skill_ids
]

-- The policy of a run: the bridge's own, or that of the request where it is known.
unfoldable pub effective_policy : String → RunRequest → String
effective_policy own request =
    let normalized = normalize_skill_risk_policy request.skill_risk_policy in
    if trim_space request.skill_risk_policy == "" || normalized == "" then own else normalized

pub record RuntimeTool : Type 0 where
  pub run_id : String
  pub workspace_id : String
  pub runtime_skill : RuntimeSkill
  pub risk_policy : String

-- The loop over the skills.
unfoldable pub tools_of : RunRequest → String → List RuntimeSkill → List RuntimeTool
tools_of request policy [] = []
tools_of request policy (s ∷ skills) =
    let rest = tools_of request policy skills in
    if s.skill.id == "" || not s.skill.enabled
    then rest
    else record {
      run_id = request.run_id;
      workspace_id = request.workspace_id;
      runtime_skill = s;
      risk_policy = policy;
    }
      ∷ rest

unfoldable pub build_tools : String → RunRequest → List RuntimeTool
build_tools own request = tools_of request (effective_policy own request) (request_skills request)
