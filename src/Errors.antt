-- ===== src/Errors.antt =====
-- The error hierarchy: src/inferrail/errors/exceptions.py. An error is its class with the fields that
-- the program branches on; messages are left out.
use inferrail.Common.{ℕ, Bool, true, false, Option, none, some}

-- the subclasses of ProviderError, and the class itself
pub data ProviderFailure : Type 0 where
  provider_failure : ProviderFailure
  authentication : ProviderFailure
  invalid_request : ProviderFailure
  rate_limit : ProviderFailure
  provider_timeout : ProviderFailure
  upstream_budget_exceeded : ProviderFailure

-- the errors that are raised locally
pub data LocalError : Type 0 where
  configuration_error : LocalError
  routing_error : LocalError
  gateway_authentication_error : LocalError
  local_api_authentication_error : LocalError
  unsupported_feature_error : LocalError
  budget_exceeded_error : LocalError
  budget_declaration_error : LocalError
  budget_unpriced_model_error : LocalError

-- `outside` is an exception that is no InferrailError, such as a cancellation. A provider error has
-- its status code and the `retryable` that its constructor was given.
pub data Exception : Type 0 where
  outside : Exception
  local_error : LocalError → Exception
  provider_error : ProviderFailure → Option ℕ → Option Bool → Exception

abbrev pub retryable_class : ProviderFailure → Bool
retryable_class rate_limit = true
retryable_class provider_timeout = true
retryable_class _ = false

-- an `UpstreamBudgetExceededError` passes False on to ProviderError
unfoldable pub is_retryable : Exception → Bool
is_retryable (provider_error upstream_budget_exceeded status given) = false
is_retryable (provider_error failure status none) = retryable_class failure
is_retryable (provider_error failure status (some given)) = given
is_retryable _ = false
