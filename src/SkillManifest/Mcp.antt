-- ===== src/SkillManifest/Mcp.antt =====
-- packages/common/skillmanifest/mcp_import.go: skills from the tools of an MCP server. The library that
-- reads and writes JSON is an argument.
use nice_agent.Prelude.{
  ℤ, pos, String, Bool, not, ◌||◌, ◌&&◌, true, false, Option, none, some, List, [], ◌∷◌, ◌++◌, ◌⊎◌,
  inl, inr, ◌==◌, pos_or, or_else, trim_space, if◌then◌else◌,
}
use nice_agent.Protocol.Json.{Json, bool, Fields, end, field}
use nice_agent.Protocol.Skill.{
  Skill, SkillRisk, low_risk, medium_risk, high_risk, RuntimeSecret, McpImportCreateInput,
  McpSkillImportCandidate, user_scope, mcp_kind, skill_enabled,
}
use nice_agent.SkillManifest.Schema.{JsonLibrary, validate_json_schema}
use nice_agent.SkillManifest.HttpConfig.{
  Url, ConfigError, wrong_type, tool_name_required, tool_not_found, document_invalid, name_required,
  wrong_timeout, wrong_auth_type, wrong_max_attempts, wrong_rate_limit, two_secrets,
  secret_required, input_schema_invalid, output_schema_invalid, config_required, config_not_json,
  HttpSkillRetryConfig, HttpSkillRateLimitConfig, first_failing, url_checks, outside_from_one,
  outside_from_zero, wrong_auth, normalize_http_retry_config, first_non_empty,
}

pub record McpTool : Type 0 where
  pub name : String
  pub description : String
  pub input_schema : Fields
  pub output_schema : Fields
  pub annotations : Fields

-- `result` is none where the document has none.
pub record McpToolsDocument : Type 0 where
  pub tools : List McpTool
  pub result : Option (List McpTool)

pub record McpSkillRuntimeConfig : Type 0 where
  pub type : String
  pub server_url : String
  pub tool_name : String
  pub timeout_seconds : ℤ
  pub auth_type : String
  pub retry : HttpSkillRetryConfig
  pub rate_limit : HttpSkillRateLimitConfig
  pub protocol_hint : String
  pub structured_output : Bool

abbrev default_mcp_import_schema : String
default_mcp_import_schema = "{\"type\":\"object\",\"additionalProperties\":true}"

pub record McpLibrary : Type 0 where
  pub json : JsonLibrary
  pub unmarshal_tools : String → Option McpToolsDocument
  pub marshal : Fields → Option String
  pub unmarshal_config : String → Option McpSkillRuntimeConfig
  pub marshal_config : McpSkillRuntimeConfig → String
  pub parse_url : String → Option Url

unfoldable pub find_field : String → Fields → Option Json
find_field key end = none
find_field key (field name value fields) = if name == key then some value else find_field key fields

abbrev is_true : Option Json → Bool
is_true (some (bool b)) = b
is_true other = false

unfoldable pub annotation_bool : Fields → String → Bool
annotation_bool annotations key = is_true (find_field key annotations)

abbrev contains_name : String → List McpSkillImportCandidate → Bool
contains_name name [] = false
contains_name name (c ∷ candidates) = c.name == name || contains_name name candidates

unfoldable pub select_mcp_import_candidate :
    List McpSkillImportCandidate → String → ConfigError ⊎ McpSkillImportCandidate
select_mcp_import_candidate [] tool_name =
    if trim_space tool_name == "" then inl tool_name_required else inl tool_not_found
select_mcp_import_candidate (c ∷ candidates) tool_name =
    let rest = select_mcp_import_candidate candidates tool_name in
    if trim_space tool_name == ""
    then inl tool_name_required
    else if c.name == trim_space tool_name
    then inr c
    else rest

unfoldable pub mcp_risk : McpSkillImportCandidate → SkillRisk
mcp_risk c = if c.destructive then high_risk else if c.open_world then medium_risk else low_risk

unfoldable pub validate_mcp : (String → Option Url) → McpSkillRuntimeConfig → Option ConfigError
validate_mcp parse_url c = first_failing (
    ((not (c.type == "") && not (c.type == "mcp"), wrong_type)
      ∷ (c.tool_name == "", tool_name_required)
      ∷ [])
    ++ url_checks (parse_url c.server_url)
    ++ (outside_from_one c.timeout_seconds 60, wrong_timeout)
      ∷ (wrong_auth c.auth_type, wrong_auth_type)
      ∷ (outside_from_one c.retry.max_attempts 5, wrong_max_attempts)
      ∷ (outside_from_zero c.rate_limit.requests_per_minute 600, wrong_rate_limit)
      ∷ [])

abbrev checked_mcp :
    Option ConfigError → McpSkillRuntimeConfig → ConfigError ⊎ McpSkillRuntimeConfig
checked_mcp none cfg = inr cfg
checked_mcp (some error) cfg = inl error

infixl 5 ◌>>=◌
abbrev ◌>>=◌ : {A B : Type 0} → Option A → (A → Option B) → Option B
◌>>=◌ none f = none
◌>>=◌ (some a) f = f a

-- The secret of an input, and whether there is one.
unfoldable pub secret_of : String → String → RuntimeSecret × Bool
secret_of bearer_token secret_ref =
    let token = trim_space bearer_token in
    let ref = trim_space secret_ref in
    if token == ""
    then (record { encrypted_value = ""; secret_ref = ref }, not (ref == ""))
    else (record { encrypted_value = token; secret_ref = "" }, true)

module _ (lib : McpLibrary) where
  unfoldable pub marshal_mcp_map : Fields → Option String
  marshal_mcp_map end = some ""
  marshal_mcp_map (field key value fields) = lib.marshal (field key value fields)

  unfoldable pub marshal_mcp_map_or_default : Fields → String → Option String
  marshal_mcp_map_or_default end fallback = some fallback
  marshal_mcp_map_or_default (field key value fields) fallback =
      marshal_mcp_map (field key value fields)

  -- The candidate of a tool: none, if one of its maps cannot be written.
  unfoldable pub candidate_of : McpTool → Option McpSkillImportCandidate
  candidate_of tool = do
    input_schema ← marshal_mcp_map_or_default tool.input_schema default_mcp_import_schema
    output_schema ← marshal_mcp_map tool.output_schema
    annotations ← marshal_mcp_map tool.annotations
    some (record {
      name = trim_space tool.name;
      description = trim_space tool.description;
      input_schema = input_schema;
      output_schema = output_schema;
      annotations = annotations;
      read_only_hint = annotation_bool tool.annotations "readOnlyHint";
      destructive = annotation_bool tool.annotations "destructiveHint";
      idempotent = annotation_bool tool.annotations "idempotentHint";
      open_world = annotation_bool tool.annotations "openWorldHint";
    })

  -- The loop over the tools, after the candidates `seen`.
  unfoldable pub candidates_from :
      List McpSkillImportCandidate → List McpTool → ConfigError ⊎ List McpSkillImportCandidate
  candidates_from seen [] = inr seen
  candidates_from seen (tool ∷ tools) =
      let name = trim_space tool.name in
      elim (candidate_of tool) [
        | none ↦ if name == "" then inl name_required else inl document_invalid
        | some c ↦
            let rest = candidates_from (seen ++ c ∷ []) tools in
            if name == ""
            then inl name_required
            else if contains_name name seen
            then inl document_invalid
            else rest
      ]

  -- `tools`, or `result.tools` where there are none.
  unfoldable pub tools_of : McpToolsDocument → List McpTool
  tools_of document = elim document.tools [
    | tool ∷ tools ↦ tool ∷ tools
    | [] ↦ elim document.result [ none ↦ [] | some tools ↦ tools ]
  ]

  unfoldable pub preview_mcp_tools : String → ConfigError ⊎ List McpSkillImportCandidate
  preview_mcp_tools document =
      if trim_space document == ""
      then inl document_invalid
      else elim (lib.unmarshal_tools (trim_space document)) [
        | none ↦ inl document_invalid
        | some parsed ↦ elim (tools_of parsed) [
          | [] ↦ inl document_invalid
          | tool ∷ tools ↦ candidates_from [] (tool ∷ tools)
        ]
      ]

  unfoldable pub new_mcp_skill_runtime_config :
      McpImportCreateInput → McpSkillImportCandidate → ConfigError ⊎ McpSkillRuntimeConfig
  new_mcp_skill_runtime_config input c =
      let cfg : McpSkillRuntimeConfig = record {
        type = "mcp";
        server_url = trim_space input.server_url;
        tool_name = trim_space (first_non_empty input.tool_name c.name);
        timeout_seconds = pos (pos_or input.timeout_seconds 15);
        auth_type = or_else (trim_space input.auth_type) "none";
        retry = normalize_http_retry_config (record {
          max_attempts = input.retry_max_attempts;
          base_delay_ms = pos 0;
          max_delay_ms = pos 0;
        });
        rate_limit = record { requests_per_minute = input.rate_limit_per_minute };
        protocol_hint = "http-json-rpc-tools-call";
        structured_output = not (trim_space c.output_schema == "");
      } in
      checked_mcp (validate_mcp lib.parse_url cfg) cfg

  unfoldable pub parse_mcp_skill_runtime_config : String → ConfigError ⊎ McpSkillRuntimeConfig
  parse_mcp_skill_runtime_config raw =
      if trim_space raw == "" then inl config_required else elim (lib.unmarshal_config raw) [
        | none ↦ inl config_not_json
        | some cfg ↦
            let full : McpSkillRuntimeConfig = record cfg {
              server_url = trim_space cfg.server_url;
              tool_name = trim_space cfg.tool_name;
              timeout_seconds = pos (pos_or cfg.timeout_seconds 15);
              auth_type = or_else (trim_space cfg.auth_type) "none";
              retry = normalize_http_retry_config cfg.retry;
            } in
            checked_mcp (validate_mcp lib.parse_url full) full
      ]

  -- The checks of `BuildMCPSkillInput` after the configuration.
  unfoldable pub build_error :
      McpImportCreateInput → McpSkillImportCandidate → McpSkillRuntimeConfig → Option ConfigError
  build_error input c cfg =
      let no_token = trim_space input.bearer_token == "" in
      let no_ref = trim_space input.bearer_token_secret_ref == "" in
      first_failing (
        (not no_token && not no_ref, two_secrets)
        ∷ (cfg.auth_type == "bearer" && no_token && no_ref, secret_required)
        ∷ (not (validate_json_schema lib.json c.input_schema), input_schema_invalid)
        ∷ (
          not (trim_space c.output_schema == "")
              && not (validate_json_schema lib.json c.output_schema),
          output_schema_invalid,
        )
        ∷ [])

  -- The skill that `BuildMCPSkillInput` returns, with the identifiers that `CreateMCPSkill` of the store
  -- gives it.
  unfoldable pub mcp_skill :
      String
      → String
      → String
      → String
      → McpImportCreateInput
      → McpSkillImportCandidate
      → McpSkillRuntimeConfig
      → Skill
  mcp_skill id version_id user_id project_id input c cfg = record {
    id = id;
    slug = id;
    scope = user_scope;
    kind = mcp_kind;
    owner_user_id = user_id;
    project_id = project_id;
    status = skill_enabled;
    current_version_id = version_id;
    name = first_non_empty input.name c.name;
    version = "1.0.0";
    description =
        first_non_empty input.description (first_non_empty c.description "Imported MCP tool.");
    risk = mcp_risk c;
    requires_auth = cfg.auth_type == "bearer";
    input_schema = c.input_schema;
    output_schema = c.output_schema;
    annotations = c.annotations;
    runtime_config = lib.marshal_config cfg;
    enabled = true;
  }

  -- `BuildMCPSkillInput`
  unfoldable pub build_mcp_skill_input :
      String
      → String
      → String
      → String
      → McpImportCreateInput
      → ConfigError ⊎ (Skill × RuntimeSecret × Bool)
  build_mcp_skill_input id version_id user_id project_id input =
      elim (preview_mcp_tools input.document) [
        | inl e ↦ inl e
        | inr candidates ↦ elim (select_mcp_import_candidate candidates input.tool_name) [
          | inl e ↦ inl e
          | inr c ↦ elim (new_mcp_skill_runtime_config input c) [
            | inl e ↦ inl e
            | inr cfg ↦ elim (build_error input c cfg) [
              | some e ↦ inl e
              | none ↦
                  let (secret, has_secret) =
                    secret_of input.bearer_token input.bearer_token_secret_ref in
                  inr (mcp_skill id version_id user_id project_id input c cfg, secret, has_secret)
            ]
          ]
        ]
      ]
