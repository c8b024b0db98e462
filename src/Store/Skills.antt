-- ===== src/Store/Skills.antt =====
-- The skill methods of store.go: which skills a user has in a project, and what a runtime gets of them.
pub mod Disabled
use Prim.Native.String
use nice_agent.Prelude.{
  ℕ, String, Bool, ◌||◌, ◌&&◌, not, true, false, Option, none, some, List, [], ◌∷◌, ◌++◌, Map, Char,
  lookup, put, value_or, pair_key, ◌==◌, ◌⊎◌, inl, inr, sort_by, or_else, trim_space, if◌then◌else◌,
}
use nice_agent.Protocol.Skill.{
  Skill, SkillStatus, skill_enabled, skill_disabled, skill_archived, SkillScope, system_scope,
  user_scope, SkillKind, builtin_kind, http_kind, mcp_kind, medium_risk, RuntimeSecret,
  RuntimeSkill, HttpSkillInput, McpImportCreateInput,
}
use nice_agent.SkillManifest.Schema.{JsonLibrary, normalize_json}
use nice_agent.SkillManifest.HttpConfig.{
  Url, ConfigError, HttpSkillRuntimeConfig, new_http_skill_runtime_config,
  validate_http_skill_input,
}
use nice_agent.SkillManifest.Mcp.{McpLibrary, secret_of, build_mcp_skill_input}
use nice_agent.Store.{Store, Error, not_found, invalid_skill, Result, ok, err}

abbrev pub is_enabled_status : SkillStatus → Bool
is_enabled_status skill_enabled = true
is_enabled_status status = false

abbrev pub is_archived_status : SkillStatus → Bool
is_archived_status skill_archived = true
is_archived_status status = false

abbrev pub is_system : SkillScope → Bool
is_system system_scope = true
is_system user_scope = false

abbrev pub is_http : SkillKind → Bool
is_http http_kind = true
is_http kind = false

-- `redactSkill`, which changes nothing.
abbrev pub redact_skill : Skill → Skill
redact_skill skill = skill

-- `skills[i].ID < skills[j].ID`
abbrev pub id_before : Skill → Skill → Bool
id_before a b = elim (String.compare a.id b.id) [ Prim.Native.Nat.Ordering.gt ↦ false | _ ↦ true ]

unfoldable pub hidden : Skill → Bool
hidden skill = is_archived_status skill.status || (is_system skill.scope && not skill.enabled)

-- The loop over the granted skills.
unfoldable pub granted_skills : Map Skill → List String → List Skill
granted_skills skills [] = []
granted_skills skills (id ∷ ids) =
    let rest = granted_skills skills ids in
    elim (lookup id skills) [
      | none ↦ rest
      | some skill ↦ if hidden skill then rest else redact_skill skill ∷ rest
    ]

unfoldable pub list_skills_for_user : String → String → Store → List Skill
list_skills_for_user user_id project_id s =
    if user_id == "" || project_id == ""
    then []
    else sort_by id_before (
        granted_skills s.skills (value_or [] (lookup (pair_key user_id project_id) s.skill_grants)))

-- The values of a skill's secrets that are not empty.
unfoldable pub plain_secrets : Map RuntimeSecret → Map String
plain_secrets [] = []
plain_secrets ((key, material) ∷ materials) =
    let rest = plain_secrets materials in
    if material.encrypted_value == "" then rest else (key, material.encrypted_value) ∷ rest

unfoldable pub runtime_skill : Skill → Store → RuntimeSkill
runtime_skill skill s =
    let materials = value_or [] (lookup skill.id s.skill_secrets) in
    record { skill = skill; secrets = plain_secrets materials; secret_materials = materials }

-- The loop over the listed skills: those that are enabled, with their secrets.
unfoldable pub runtime_skills : Store → List Skill → List RuntimeSkill
runtime_skills s [] = []
runtime_skills s (skill ∷ skills) =
    let rest = runtime_skills s skills in
    if not (is_enabled_status skill.status) || not skill.enabled
    then rest
    else runtime_skill skill s ∷ rest

unfoldable pub list_runtime_skills_for_user : String → String → Store → List RuntimeSkill
list_runtime_skills_for_user user_id project_id s =
    runtime_skills s (list_skills_for_user user_id project_id s)

unfoldable pub append_unique : List String → String → List String
append_unique [] next = next ∷ []
append_unique (value ∷ values) next =
    if value == next then value ∷ values else value ∷ append_unique values next

-- A new skill with its secret, granted to the user in the project.
unfoldable pub write_skill : String → String → Skill → RuntimeSecret → Bool → Store → Store
write_skill user_id project_id skill secret has_secret s =
    let key = pair_key user_id project_id in
    record s {
      skills = put skill.id skill s.skills;
      skill_secrets =
          if has_secret
          then put skill.id (("bearer_token", secret) ∷ []) s.skill_secrets
          else s.skill_secrets;
      skill_grants =
          put key (append_unique (value_or [] (lookup key s.skill_grants)) skill.id) s.skill_grants;
    }

-- What the HTTP skills take from outside: the tables of characters, `url.Parse`, and JSON.
pub record HttpLibrary : Type 0 where
  pub upper : Char → Char
  pub parse_url : String → Option Url
  pub json : JsonLibrary
  pub marshal_config : HttpSkillRuntimeConfig → String

unfoldable pub http_skill :
    HttpLibrary
    → String
    → String
    → String
    → String
    → String
    → HttpSkillInput
    → HttpSkillRuntimeConfig
    → Skill
http_skill lib id version_id user_id project_id version input config =
    let given = trim_space input.input_schema in
    let schema =
      if given == "" then "{\"type\":\"object\",\"additionalProperties\":true}" else given in
    record {
      id = id;
      slug = id;
      scope = user_scope;
      kind = http_kind;
      owner_user_id = user_id;
      project_id = project_id;
      status = skill_enabled;
      current_version_id = version_id;
      name = trim_space input.name;
      version = version;
      description = or_else (trim_space input.description) "User-provided HTTP skill.";
      risk = medium_risk;
      requires_auth = false;
      input_schema = value_or "" (normalize_json lib.json schema);
      output_schema = value_or "" (normalize_json lib.json input.output_schema);
      annotations =
          "{\"readOnlyHint\":false,\"destructiveHint\":false,\"idempotentHint\":false,\"openWorldHint\":true}";
      runtime_config = lib.marshal_config config;
      enabled = true;
    }

-- `httpSkillFromInput`
unfoldable pub http_skill_from_input :
    HttpLibrary
    → String
    → String
    → String
    → String
    → String
    → HttpSkillInput
    → Result (Skill × RuntimeSecret × Bool)
http_skill_from_input lib id version_id user_id project_id version input =
    elim (validate_http_skill_input lib.upper lib.parse_url lib.json input) [
      | some e ↦ err (invalid_skill e)
      | none ↦ elim (new_http_skill_runtime_config lib.upper lib.parse_url input) [
        | inl e ↦ err (invalid_skill e)
        | inr config ↦
            let (secret, has_secret) = secret_of input.bearer_token input.bearer_token_secret_ref in
            ok (
              http_skill lib id version_id user_id project_id version input config,
              secret,
              has_secret,
            )
      ]
    ]

unfoldable pub create_http_skill :
    HttpLibrary → String → String → String → String → HttpSkillInput → Store → Result Skill × Store
create_http_skill lib id version_id user_id project_id input s =
    elim (http_skill_from_input lib id version_id user_id project_id "1.0.0" input) [
      | err e ↦ (err e, s)
      | ok (skill, secret, has_secret) ↦
          (ok (redact_skill skill), write_skill user_id project_id skill secret has_secret s)
    ]

unfoldable pub create_mcp_skill :
    McpLibrary
    → String
    → String
    → String
    → String
    → McpImportCreateInput
    → Store
    → Result Skill × Store
create_mcp_skill lib id version_id user_id project_id input s =
    elim (build_mcp_skill_input lib id version_id user_id project_id input) [
      | inl e ↦ (err (invalid_skill e), s)
      | inr (skill, secret, has_secret) ↦
          (ok (redact_skill skill), write_skill user_id project_id skill secret has_secret s)
    ]

-- An update keeps the old secret where the input brings none.
unfoldable pub replace_skill : Skill → Skill → RuntimeSecret → Bool → Store → Store
replace_skill current updated secret has_secret s =
    let materials = value_or [] (lookup updated.id s.skill_secrets) in
    record s {
      skills =
          put updated.id (record updated { enabled = current.enabled; status = current.status })
            s.skills;
      skill_secrets =
          if has_secret
          then put updated.id (put "bearer_token" secret materials) s.skill_secrets
          else s.skill_secrets;
    }

unfoldable pub update_http_skill :
    HttpLibrary → String → String → String → HttpSkillInput → Store → Result Skill × Store
update_http_skill lib version_id user_id skill_id input s = elim (lookup skill_id s.skills) [
  | none ↦ (err not_found, s)
  | some current ↦
      if not (current.owner_user_id == user_id) || not (is_http current.kind)
      then (err not_found, s)
      else elim (http_skill_from_input lib skill_id version_id user_id current.project_id
          current.version input) [
            | err e ↦ (err e, s)
            | ok (updated, secret, has_secret) ↦ (
              ok (
                  redact_skill
                    (record updated { enabled = current.enabled; status = current.status })),
              replace_skill current updated secret has_secret s,
            )
          ]
]

-- The skill with the flag and the status that goes with it.
abbrev pub with_enabled : Bool → Skill → Skill
with_enabled enabled skill = record skill {
  enabled = enabled;
  status = if enabled then skill_enabled else skill_disabled;
}

unfoldable pub set_skill_enabled : String → String → Bool → Store → Result Skill × Store
set_skill_enabled user_id skill_id enabled s = elim (lookup skill_id s.skills) [
  | none ↦ (err not_found, s)
  | some skill ↦
      if not (skill.owner_user_id == user_id) || is_system skill.scope
      then (err not_found, s)
      else (
        ok (redact_skill (with_enabled enabled skill)),
        record s { skills = put skill_id (with_enabled enabled skill) s.skills },
      )
]
