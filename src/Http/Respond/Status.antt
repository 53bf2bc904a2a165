-- ===== src/Http/Respond/Status.antt =====
-- The status of the responses of src/http.rs.
use rust_enrich.Common.{
  ℕ, ◌≡◌, refl, Bool, false, Option, none, List, ◌==◌, ok, err, arith, ap, ◌∙◌,
}
use rust_enrich.Common.Text.{Text}
use rust_enrich.Domain.Errors.{ErrorCode, method_not_allowed}
use rust_enrich.Domain.Errors
use rust_enrich.Domain.Request.{Details}
use rust_enrich.Serialization.{Written, write_parts}
use rust_enrich.Serialization
use rust_enrich.Http.Project.{envelope_limit}
use rust_enrich.Http.Respond.{
  Response, Bodies, response_bytes, written, json_response, mark, error_response, method_error,
}

abbrev pub is_200 : Response → Bool
is_200 r = r.status == 200

response_bytes-status :
    (b : Bodies) (id : Text) (status : ℕ) (body : List ℕ)
    → (response_bytes b id status body).status ≡ status
unfolding response_bytes
response_bytes-status b id status body = ground arith

pub response_bytes-body :
    (b : Bodies) (id : Text) (status : ℕ) (body : List ℕ)
    → (response_bytes b id status body).body ≡ body
unfolding response_bytes
response_bytes-body b id status body = ground arith

written-status :
    (b : Bodies) (id : Text) (status : ℕ) (w : Written)
    → (status == 200) ≡ false
    → is_200 (written b id status w) ≡ false
unfolding written
written-status b id status (w, ok n) h = ground (arith, response_bytes-status b id status w.bytes)
written-status b id status (w, err e) h = ap (λ n. n == 200) (response_bytes-status b id 500 _)

mark-status : (status : ℕ) (r : Response) → is_200 (mark status r) ≡ is_200 r
unfolding mark
mark-status status r = ground arith

pub error_response-status :
    (b : Bodies) (id : Text) (status : ℕ) (code : ErrorCode) (details : Option Details)
    → (status == 200) ≡ false
    → is_200 (error_response b id status code details) ≡ false
unfolding error_response json_response
error_response-status b id status code details h =
    mark-status status _
    ∙ written-status b id status
        (write_parts (Serialization.new envelope_limit)
          (b.error_parts id (Errors.new code) details))
        h

pub method_error-status : (b : Bodies) (id allow : Text) → is_200 (method_error b id allow) ≡ false
unfolding method_error
method_error-status b id allow = error_response-status b id 405 method_not_allowed none refl
