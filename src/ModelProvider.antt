-- ===== src/ModelProvider.antt =====
-- The errors of model providers: services/agent-runtime/internal/modelprovider/errors.go. `redact` is the
-- redactor of a message.
pub mod Retry
pub mod Attempts
pub mod RateLimit
use nice_agent.Prelude.{ℕ, String, Bool, true, false, ◌||◌, leb, eqb, if◌then◌else◌, trim_space}

pub data ErrorClass : Type 0 where
  config_error auth_error billing_error request_error rate_limited : ErrorClass
  provider_unavailable network_error tool_schema_error unknown_provider_error : ErrorClass

pub record ProviderError : Type 0 where
  pub class : ErrorClass
  pub status_code : ℕ
  pub retryable : Bool
  pub message : String

abbrev pub is_retryable_error_class : ErrorClass → Bool
is_retryable_error_class rate_limited = true
is_retryable_error_class provider_unavailable = true
is_retryable_error_class network_error = true
is_retryable_error_class _ = false

unfoldable pub classify_http_status : ℕ → ErrorClass
classify_http_status status_code =
    if eqb status_code 401
    then auth_error
    else if eqb status_code 402
    then billing_error
    else if eqb status_code 429
    then rate_limited
    else if eqb status_code 500 || eqb status_code 502 || eqb status_code 503 || eqb status_code 504
    then provider_unavailable
    else if eqb status_code 400 || eqb status_code 422
    then request_error
    else if leb 500 status_code
    then provider_unavailable
    else if leb 400 status_code
    then request_error
    else unknown_provider_error

unfoldable pub provider_error_for_status : (String → String) → ℕ → String → ProviderError
provider_error_for_status redact status_code message =
    let class = classify_http_status status_code in
    record {
      class = class;
      status_code = status_code;
      retryable = is_retryable_error_class class;
      message = redact (trim_space message);
    }

-- An error of the transport, by the first of the tests of `ClassifyProviderError` that it passes.
pub data TransportError : Type 0 where
  provider : ProviderError → TransportError
  deadline_exceeded canceled url_error other : String → TransportError
  net_error : Bool → String → TransportError

abbrev unclassified : ErrorClass → Bool → String → ProviderError
unclassified class retryable message = record {
  class = class;
  status_code = 0;
  retryable = retryable;
  message = message;
}

unfoldable pub classify_provider_error : TransportError → ProviderError
classify_provider_error (provider e) = e
classify_provider_error (deadline_exceeded message) = unclassified network_error true message
classify_provider_error (canceled message) = unclassified network_error false message
classify_provider_error (url_error message) = unclassified network_error true message
classify_provider_error (net_error timeout message) = unclassified network_error timeout message
classify_provider_error (other message) = unclassified unknown_provider_error false message
