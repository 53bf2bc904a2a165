-- ===== src/Http/Respond.antt =====
-- `error_response`, `method_error`, `json_response` and `response_bytes` of src/http.rs. What serde_json writes is a list
-- of parts.
pub mod Status
use rust_enrich.Common.{
  ℕ, Bool, true, false, Option, none, some, String, List, [], ◌∷◌, ◌++◌, ◌==◌, if◌then◌else◌,
  Result, ok, err,
}
use rust_enrich.Common.Text.{Text, codes, bytes}
use rust_enrich.Domain.Errors.{ErrorCode, PublicError, method_not_allowed}
use rust_enrich.Domain.Errors
use rust_enrich.Domain.Request.{Details}
use rust_enrich.Serialization.{LimitedWriter, Written, write_parts}
use rust_enrich.Serialization
use rust_enrich.Http.Project.{envelope_limit}

pub record Response : Type 0 where
  pub status : ℕ
  pub headers : List (Text × Text)
  pub body : List ℕ

-- What serde_json writes of the two bodies, and `HeaderValue::from_str`.
pub record Bodies : Type 0 where
  pub error_parts : Text → PublicError → Option Details → List (List ℕ)
  pub health_parts : String → Text → List (List ℕ)
  pub is_header_value : Text → Bool

abbrev with_header : Text → Text → Response → Response
with_header name value r = record r { headers = r.headers ++ (name, value) ∷ [] }

unfoldable pub response_bytes : Bodies → Text → ℕ → List ℕ → Response
response_bytes b id status body =
    let plain : Response = record {
      status = status;
      headers =
          (codes "content-type", codes "application/json")
          ∷ (codes "cache-control", codes "no-store")
          ∷ [];
      body = body;
    } in
    if b.is_header_value id then with_header (codes "x-request-id") id plain else plain

-- the body of last resort
unfoldable pub last_resort : Text → Text
last_resort id =
    codes "{\"request_id\":\""
    ++ (id
        ++ codes
            "\",\"error\":{\"code\":\"internal_error\",\"message\":\"The request could not be completed.\",\"retryable\":true,\"retry_after_seconds\":null}}")

-- the two arms of `to_writer`
unfoldable pub written : Bodies → Text → ℕ → Written → Response
unfolding response_bytes last_resort
written b id status (w, ok n) = response_bytes b id status w.bytes
written b id status (w, err e) = response_bytes b id 500 (bytes (last_resort id))

unfoldable pub json_response : Bodies → Text → ℕ → List (List ℕ) → Response
unfolding written write_parts Serialization.new
json_response b id status parts =
    written b id status (write_parts (Serialization.new envelope_limit) parts)

-- the headers of the two statuses that have one of their own
unfoldable pub mark : ℕ → Response → Response
mark status r =
    if status == 401
    then with_header (codes "www-authenticate") (codes "Bearer") r
    else if status == 503
    then with_header (codes "retry-after") (codes "1") r
    else r

unfoldable pub error_response : Bodies → Text → ℕ → ErrorCode → Option Details → Response
unfolding json_response Errors.new mark
error_response b id status code details =
    mark status (json_response b id status (b.error_parts id (Errors.new code) details))

unfoldable pub method_error : Bodies → Text → Text → Response
unfolding error_response
method_error b id allow =
    with_header (codes "allow") allow (error_response b id 405 method_not_allowed none)
