-- ===== src/SkillManifest/HttpConfig.antt =====
-- packages/common/skillmanifest/http_config.go: the configuration of a skill that calls a URL. Numbers that
-- a user gives are integers, and a zero is a value that was not given.
use nice_agent.Prelude.{
  ℕ, ℤ, pos, String, Bool, not, ◌||◌, ◌&&◌, true, Option, none, some, List, [], ◌∷◌, ◌++◌, Char,
  ◌⊎◌, inl, inr, ◌==◌, is_neg, is_positive, is_above, gtb, pos_or, or_else, trim_space, to_upper,
  if◌then◌else◌,
}
use nice_agent.Protocol.Skill.{HttpSkillInput}
use nice_agent.SkillManifest.Schema.{JsonLibrary, validate_json_schema}

pub record HttpSkillRetryConfig : Type 0 where
  pub max_attempts : ℤ
  pub base_delay_ms : ℤ
  pub max_delay_ms : ℤ

pub record HttpSkillRateLimitConfig : Type 0 where
  pub requests_per_minute : ℤ

pub record HttpSkillRuntimeConfig : Type 0 where
  pub type : String
  pub method : String
  pub url : String
  pub timeout_seconds : ℤ
  pub auth_type : String
  pub retry : HttpSkillRetryConfig
  pub rate_limit : HttpSkillRateLimitConfig

-- What `url.Parse` finds in a text.
pub record Url : Type 0 where
  pub scheme : String
  pub host : String
  pub has_user : Bool

pub data ConfigError : Type 0 where
  wrong_type wrong_method invalid_url scheme_not_https url_with_credentials : ConfigError
  wrong_timeout wrong_auth_type wrong_max_attempts wrong_base_delay wrong_max_delay : ConfigError
  base_above_max wrong_rate_limit : ConfigError
  name_required input_schema_invalid output_schema_invalid two_secrets : ConfigError
  config_required config_not_json tool_name_required tool_not_found : ConfigError
  document_invalid secret_required : ConfigError

-- The first check of a list that fails.
abbrev pub first_failing : List (Bool × ConfigError) → Option ConfigError
first_failing [] = none
first_failing ((failing, error) ∷ checks) = if failing then some error else first_failing checks

-- The checks of a URL, which is none where it does not parse.
unfoldable pub url_checks : Option Url → List (Bool × ConfigError)
url_checks none = (true, invalid_url) ∷ []
url_checks (some url) =
    (url.scheme == "" || url.host == "", invalid_url)
    ∷ (not (url.scheme == "https"), scheme_not_https)
    ∷ (url.has_user, url_with_credentials)
    ∷ []

-- `n <= 0 || n > bound`
abbrev pub outside_from_one : ℤ → ℕ → Bool
outside_from_one n bound = not (is_positive n) || is_above n bound

-- `n < 0 || n > bound`
abbrev pub outside_from_zero : ℤ → ℕ → Bool
outside_from_zero n bound = is_neg n || is_above n bound

-- `auth_type` is "none" or "bearer".
abbrev pub wrong_auth : String → Bool
wrong_auth auth_type = not (auth_type == "none" || auth_type == "bearer")

unfoldable pub validate : (String → Option Url) → HttpSkillRuntimeConfig → Option ConfigError
validate parse_url c = first_failing (
    ((not (c.type == "") && not (c.type == "http"), wrong_type)
      ∷ (not (c.method == "GET" || c.method == "POST"), wrong_method)
      ∷ [])
    ++ url_checks (parse_url c.url)
    ++ (outside_from_one c.timeout_seconds 60, wrong_timeout)
      ∷ (wrong_auth c.auth_type, wrong_auth_type)
      ∷ (outside_from_one c.retry.max_attempts 5, wrong_max_attempts)
      ∷ (outside_from_zero c.retry.base_delay_ms 10000, wrong_base_delay)
      ∷ (outside_from_zero c.retry.max_delay_ms 10000, wrong_max_delay)
      ∷ (
        is_positive c.retry.max_delay_ms && gtb c.retry.base_delay_ms c.retry.max_delay_ms,
        base_above_max,
      )
      ∷ (outside_from_zero c.rate_limit.requests_per_minute 600, wrong_rate_limit)
      ∷ [])

unfoldable pub normalize_http_retry_config : HttpSkillRetryConfig → HttpSkillRetryConfig
normalize_http_retry_config cfg =
    let max_attempts = pos_or cfg.max_attempts 1 in
    if is_above (pos max_attempts) 1
    then record {
      max_attempts = pos max_attempts;
      base_delay_ms = pos (pos_or cfg.base_delay_ms 200);
      max_delay_ms = pos (pos_or cfg.max_delay_ms 2000);
    }
    else record cfg { max_attempts = pos max_attempts }

-- `firstNonEmpty` of two texts, which looks at them without their spaces
unfoldable pub first_non_empty : String → String → String
first_non_empty a b = if trim_space a == "" then (if trim_space b == "" then "" else b) else a

-- The configuration where it is valid.
abbrev pub checked :
    Option ConfigError → HttpSkillRuntimeConfig → ConfigError ⊎ HttpSkillRuntimeConfig
checked none cfg = inr cfg
checked (some error) cfg = inl error

-- `upper` is the table by which Go raises a character.
module _ (upper : Char → Char) (parse_url : String → Option Url) where
  -- The defaults, which both constructors fill in.
  unfoldable pub with_defaults : HttpSkillRuntimeConfig → HttpSkillRuntimeConfig
  with_defaults cfg = record cfg {
    method = or_else (to_upper upper (trim_space cfg.method)) "POST";
    url = trim_space cfg.url;
    timeout_seconds = pos (pos_or cfg.timeout_seconds 15);
    auth_type = or_else (trim_space cfg.auth_type) "none";
    retry = normalize_http_retry_config cfg.retry;
  }

  unfoldable pub given : HttpSkillInput → HttpSkillRuntimeConfig
  given input = record {
    type = "http";
    method = input.method;
    url = input.url;
    timeout_seconds = input.timeout_seconds;
    auth_type = input.auth_type;
    retry = record {
      max_attempts = input.retry_max_attempts;
      base_delay_ms = pos 0;
      max_delay_ms = pos 0;
    };
    rate_limit = record { requests_per_minute = input.rate_limit_per_minute };
  }

  unfoldable pub new_http_skill_runtime_config :
      HttpSkillInput → ConfigError ⊎ HttpSkillRuntimeConfig
  new_http_skill_runtime_config input =
      let cfg = with_defaults (given input) in checked (validate parse_url cfg) cfg

  -- `unmarshal` reads the text of a configuration.
  unfoldable pub parse_http_skill_runtime_config :
      (String → Option HttpSkillRuntimeConfig) → String → ConfigError ⊎ HttpSkillRuntimeConfig
  parse_http_skill_runtime_config unmarshal raw =
      if trim_space raw == "" then inl config_required else elim (unmarshal raw) [
        | none ↦ inl config_not_json
        | some cfg ↦ let full = with_defaults cfg in checked (validate parse_url full) full
      ]

  -- The error of the configuration, if any.
  abbrev error_of : ConfigError ⊎ HttpSkillRuntimeConfig → Option ConfigError
  error_of (inl e) = some e
  error_of (inr cfg) = none

  unfoldable pub validate_http_skill_input : JsonLibrary → HttpSkillInput → Option ConfigError
  validate_http_skill_input lib input =
      let input_schema =
        first_non_empty input.input_schema "{\"type\":\"object\",\"additionalProperties\":true}" in
      if trim_space input.name == ""
      then some name_required
      else elim (error_of (new_http_skill_runtime_config input)) [
        | some e ↦ some e
        | none ↦ first_failing (
            (not (validate_json_schema lib input_schema), input_schema_invalid)
            ∷ (
              not (trim_space input.output_schema == "")
                  && not (validate_json_schema lib input.output_schema),
              output_schema_invalid,
            )
            ∷ (
              not (trim_space input.bearer_token == "")
                  && not (trim_space input.bearer_token_secret_ref == ""),
              two_secrets,
            )
            ∷ [])
      ]
