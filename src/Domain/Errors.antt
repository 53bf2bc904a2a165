-- ===== src/Domain/Errors.antt =====
-- `ErrorCode`, `PublicError` and `Outcome` of src/domain.rs.
use Prim.Native.Nat.{ℕ}
use rust_enrich.Common.{Bool, true, false, ◌≡◌, Option, none, some, String, ◌||◌, is_some, arith}
use rust_enrich.Domain.Types.{Status, rate_limited, timeout, error}

pub data ErrorCode : Type 0 where
  invalid_json unauthorized route_not_found method_not_allowed : ErrorCode
  request_body_timeout request_too_large unsupported_media_type validation_error : ErrorCode
  service_overloaded service_unavailable internal_error response_too_large : ErrorCode
  quota_exhausted provider_authentication_failed provider_access_denied provider_timeout : ErrorCode
  request_deadline_exceeded network_error provider_unavailable provider_request_rejected : ErrorCode
  provider_tls_error invalid_response provider_busy storage_unavailable : ErrorCode

unfoldable pub status : ErrorCode → Status
status quota_exhausted = rate_limited
status provider_timeout = timeout
status request_deadline_exceeded = timeout
status _ = error

pub record PublicError : Type 0 where
  pub code : ErrorCode
  pub message : String
  pub retryable : Bool
  pub retry_after_seconds : Option ℕ

unfoldable pub as_str : ErrorCode → String
as_str invalid_json = "invalid_json"
as_str unauthorized = "unauthorized"
as_str route_not_found = "route_not_found"
as_str method_not_allowed = "method_not_allowed"
as_str request_body_timeout = "request_body_timeout"
as_str request_too_large = "request_too_large"
as_str unsupported_media_type = "unsupported_media_type"
as_str validation_error = "validation_error"
as_str service_overloaded = "service_overloaded"
as_str service_unavailable = "service_unavailable"
as_str internal_error = "internal_error"
as_str response_too_large = "response_too_large"
as_str quota_exhausted = "quota_exhausted"
as_str provider_authentication_failed = "provider_authentication_failed"
as_str provider_access_denied = "provider_access_denied"
as_str provider_timeout = "provider_timeout"
as_str request_deadline_exceeded = "request_deadline_exceeded"
as_str network_error = "network_error"
as_str provider_unavailable = "provider_unavailable"
as_str provider_request_rejected = "provider_request_rejected"
as_str provider_tls_error = "provider_tls_error"
as_str invalid_response = "invalid_response"
as_str provider_busy = "provider_busy"
as_str storage_unavailable = "storage_unavailable"

abbrev pub fresh : ErrorCode → String → Bool → Option ℕ → PublicError
fresh c text again seconds = record {
  code = c;
  message = text;
  retryable = again;
  retry_after_seconds = seconds;
}

unfoldable pub new : ErrorCode → PublicError
new invalid_json = fresh invalid_json "The request body is not valid JSON." false none
new unauthorized = fresh unauthorized "A valid service bearer token is required." false none
new route_not_found = fresh route_not_found "The requested route does not exist." false none
new method_not_allowed =
    fresh method_not_allowed "This HTTP method is not allowed for the route." false none
new request_body_timeout = fresh request_body_timeout "The request body deadline expired." true none
new request_too_large =
    fresh request_too_large "The request body exceeds its size limit." false none
new unsupported_media_type =
    fresh unsupported_media_type "An uncompressed application/json request body is required." false
      none
new validation_error = fresh validation_error "One or more request fields are invalid." false none
new service_overloaded =
    fresh service_overloaded "The service has reached its request capacity." true (some 1)
new service_unavailable =
    fresh service_unavailable "The service is temporarily unavailable." true (some 1)
new internal_error = fresh internal_error "An internal error prevented completion." true none
new response_too_large = fresh response_too_large "The response exceeds its size limit." false none
new quota_exhausted = fresh quota_exhausted "Provider request quota is exhausted." true none
new provider_authentication_failed =
    fresh provider_authentication_failed "The provider rejected its configured credentials." false
      none
new provider_access_denied =
    fresh provider_access_denied "The provider denied access to this report." false none
new provider_timeout = fresh provider_timeout "The provider lookup deadline expired." true none
new request_deadline_exceeded =
    fresh request_deadline_exceeded "The request deadline expired before this lookup completed."
      true none
new network_error = fresh network_error "A network failure prevented the provider lookup." true none
new provider_unavailable =
    fresh provider_unavailable "The provider is temporarily unavailable." true none
new provider_request_rejected =
    fresh provider_request_rejected "The provider rejected the lookup request." false none
new provider_tls_error =
    fresh provider_tls_error "The provider TLS connection could not be validated." false none
new invalid_response = fresh invalid_response "The provider returned an invalid report." false none
new provider_busy =
    fresh provider_busy "The service has reached its shared lookup capacity." true (some 1)
new storage_unavailable =
    fresh storage_unavailable "Storage required for quota accounting is unavailable." true (some 1)

unfoldable pub with_retry_after : PublicError → Option ℕ → PublicError
with_retry_after self seconds = record self { retry_after_seconds = seconds }

-- A status other than `error`.
abbrev pub not_error : Status → Bool
not_error error = false
not_error _ = true

-- An error that names a delay may be retried, as may one that is a timeout or a rate limit.
pub new-retryable :
    (c : ErrorCode)
    → (is_some (new c).retry_after_seconds || not_error (status c)) ≡ true
    → (new c).retryable ≡ true
unfolding new status
new-retryable c h = ground arith
