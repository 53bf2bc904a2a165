-- ===== src/Http/Handle.antt =====
-- `handle`, `health`, `enrich`, `enrich_admitted` and `attach_permit` of src/http.rs. A semaphore is the number of its free
-- permits. What the connection, the clock and the service decide of one request is its `Turn`, and a lookup's answer is
-- a function of its pair.
pub mod Permits
pub mod Enriched
pub mod PermitBody
mod Tests
use rust_enrich.Common.{
  ℕ, ◌+◌, ◌-◌, Bool, true, false, not, ◌&&◌, ◌||◌, Option, none, some, String, List, [], ◌∷◌, ◌++◌,
  map, ◌==◌, ltb, if◌then◌else◌, length, is_none, Result, ok, err,
}
use rust_enrich.Common.Text.{Text, codes, text_eq}
use rust_enrich.Domain.Types.{ProviderId}
use rust_enrich.Domain.Errors.{
  ErrorCode, route_not_found, unauthorized, service_overloaded, service_unavailable,
  unsupported_media_type, request_body_timeout, invalid_json, request_too_large, validation_error,
  response_too_large, internal_error,
}
use rust_enrich.Domain.Indicator.{Parsers}
use rust_enrich.Domain.Request.{Json, Details}
use rust_enrich.Domain.Validate.{
  ValidatedRequest, RequestValidationError, semantic, validate_request,
}
use rust_enrich.Config.{Config}
use rust_enrich.Enrichment.Lookup.{LookupResult, failure}
use rust_enrich.Enrichment.Fetch.{Instant}
use rust_enrich.Http.Pairs.{Pair, plan, spread}
use rust_enrich.Http.Project.{Writers, project}
use rust_enrich.Http.Headers.{Headers, HeaderTools, authorized, supported_media_type}
use rust_enrich.Http.Respond.{
  Response, Bodies, response_bytes, json_response, error_response, method_error,
}

pub data Method : Type 0 where
  get post other : Method

-- The next event of a body: the deadline, its end, an error, or a chunk.
pub data BodyEvent : Type 0 where
  late ended broken : BodyEvent
  chunk : List ℕ → BodyEvent

-- A request, with the events of its body; a body without a further event has ended.
pub record Request : Type 0 where
  pub path : Text
  pub method : Method
  pub headers : Headers
  pub body : List BodyEvent

pub data Permit : Type 0 where
  of_admission of_health : Permit

pub record HttpState : Type 0 where
  pub admission : ℕ
  pub health_admission : ℕ
  pub token_digest : List ℕ

-- `ConnectionContext`
pub record Connection : Type 0 where
  pub deadline : Option Instant
  pub permit : Option Permit

-- The service during one request: the flags that it reads, the enabled providers and the lookups; and the readings of
-- the clock: at admission, behind the lookups, behind `project`, and at the end.
pub record Turn (Value : Type 0) : Type 0 where
  pub stopping : Bool
  pub healthy : Bool
  pub storage_ready : Bool
  pub enabled : List ProviderId
  pub lookup : Pair → LookupResult Value
  pub admitted_at : Instant
  pub looked_up_at : Instant
  pub projected_at : Instant
  pub finished_at : Instant

pub record HttpTools (Value : Type 0) : Type 0 where
  pub config : Config
  pub headers : HeaderTools
  pub bodies : Bodies
  pub writers : Writers Value
  pub parsers : Parsers
  pub from_slice : List ℕ → Option Json

-- What a request leaves: the state, its connection, and the response with the permit of its `PermitBody`.
pub record Handled : Type 0 where
  pub state : HttpState
  pub connection : Option Connection
  pub response : Response
  pub body_permit : Option Permit

abbrev pub plain : HttpState → Option Connection → Response → Handled
plain s c r = record { state = s; connection = c; response = r; body_permit = none }

unfoldable pub attach_permit : HttpState → Option Connection → Permit → Response → Handled
attach_permit s none p r = record {
  state = s;
  connection = none;
  response = r;
  body_permit = some p;
}
attach_permit s (some c) p r = plain s (some (record c { permit = some p })) r

abbrev pub set_deadline : Instant → Option Connection → Option Connection
set_deadline t none = none
set_deadline t (some c) = some (record c { deadline = some t })

-- the deadline that a response without one gets
abbrev pub close_deadline : Instant → Option Connection → Option Connection
close_deadline t none = none
close_deadline t (some c) =
    if is_none c.deadline then some (record c { deadline = some t }) else some c

module _ {Value : Type 0} (t : HttpTools Value) where
  abbrev pub failed : Text → ℕ → ErrorCode → Response
  failed id status code = error_response t.bodies id status code none

  -- the loop that collects the body
  unfoldable pub collect_body : Text → List BodyEvent → List ℕ → Result {0} Response (List ℕ)
  unfolding error_response
  collect_body id [] body = ok body
  collect_body id (late ∷ events) body = err (failed id 408 request_body_timeout)
  collect_body id (ended ∷ events) body = ok body
  collect_body id (broken ∷ events) body = err (failed id 400 invalid_json)
  collect_body id (chunk c ∷ events) body =
      let rest = collect_body id events (body ++ c) in
      if ltb (t.config.max_request_bytes - length body) (length c)
      then err (failed id 413 request_too_large)
      else rest

  -- The results in the order of the pairs of the response.
  unfoldable pub results_of : Turn Value → ValidatedRequest → List (LookupResult Value)
  unfolding plan spread failure
  results_of turn request =
      spread (failure internal_error)
        (map turn.lookup (plan request.indicators request.providers).pairs)
        (plan request.indicators request.providers).positions

  unfoldable pub finish_enrich :
      Text → Turn Value → Instant → Result {0} ErrorCode (List ℕ) → Response
  unfolding response_bytes error_response
  finish_enrich id turn write_deadline (err e) = failed id 500 response_too_large
  finish_enrich id turn write_deadline (ok bytes) =
      if ltb turn.projected_at write_deadline
      then response_bytes t.bodies id 200 bytes
      else failed id 500 response_too_large

  -- The rest of `enrich_admitted` behind the validation.
  unfoldable pub answer_request :
      Text
      → Turn Value
      → Option Connection
      → Result {0} RequestValidationError ValidatedRequest
      → Option Connection × Response
  unfolding results_of finish_enrich project error_response
  answer_request id turn c (err RequestValidationError.invalid_json) =
      (c, failed id 400 invalid_json)
  answer_request id turn c (err (semantic details)) =
      (c, error_response t.bodies id 422 validation_error (some details))
  answer_request id turn c (ok request) =
      let write_deadline = turn.looked_up_at + t.config.response_write_timeout in
      (
        set_deadline write_deadline c,
        finish_enrich id turn write_deadline (
            project t.writers id request (results_of turn request) t.config.max_raw_response_bytes),
      )

  unfoldable pub after_body :
      Text
      → Turn Value
      → Option Connection
      → Result {0} Response (List ℕ)
      → Option Connection × Response
  unfolding answer_request validate_request
  after_body id turn c (err response) = (c, response)
  after_body id turn c (ok bytes) =
      answer_request id turn c
        (validate_request t.from_slice t.parsers bytes t.config.max_batch_size turn.enabled)

  unfoldable pub enrich_admitted :
      Text → Turn Value → Request → Option Connection → Option Connection × Response
  unfolding supported_media_type collect_body after_body error_response
  enrich_admitted id turn r c =
      if supported_media_type t.headers r.headers
      then after_body id turn c (collect_body id r.body [])
      else (c, failed id 415 unsupported_media_type)

  abbrev attach_pair : HttpState → Permit → Option Connection × Response → Handled
  attach_pair s p (c, r) = attach_permit s c p r

  unfoldable pub enrich : Text → Turn Value → Request → Option Connection → HttpState → Handled
  unfolding enrich_admitted attach_permit error_response
  enrich id turn r c s =
      if turn.stopping || not turn.healthy
      then plain s c (failed id 503 service_unavailable)
      else if s.admission == 0
      then plain s c (failed id 503 service_overloaded)
      else attach_pair (record s { admission = s.admission - 1 }) of_admission
          (enrich_admitted id turn r (
            set_deadline
              (turn.admitted_at + t.config.request_timeout + t.config.response_write_timeout) c))

  abbrev health_word : Bool → Bool → String
  health_word readiness ready =
      if not readiness then "alive" else if ready then "ready" else "not_ready"

  unfoldable pub health : Text → Turn Value → Bool → Option Connection → HttpState → Handled
  unfolding attach_permit json_response error_response
  health id turn readiness c s =
      let ready = not readiness || (not turn.stopping && turn.storage_ready) in
      if s.health_admission == 0
      then plain s c (failed id 503 service_overloaded)
      else attach_permit (record s { health_admission = s.health_admission - 1 }) c of_health
          (json_response t.bodies id (if ready then 200 else 503)
            (t.bodies.health_parts (health_word readiness ready) id))

  abbrev is_get : Method → Bool
  is_get get = true
  is_get _ = false

  abbrev is_post : Method → Bool
  is_post post = true
  is_post _ = false

  -- the arms of `match route`
  unfoldable pub route_request :
      Text → Turn Value → Request → Option Connection → HttpState → Handled
  unfolding health enrich authorized method_error error_response
  route_request id turn r c s =
      let live = text_eq r.path (codes "/health/live") in
      let ready = text_eq r.path (codes "/health/ready") in
      if text_eq r.path (codes "/v1/enrich")
      then (if is_post r.method
          then (if authorized t.headers s.token_digest r.headers
              then enrich id turn r c s
              else plain s c (failed id 401 unauthorized))
          else plain s c (method_error t.bodies id (codes "POST")))
      else if live || ready
      then (if is_get r.method
          then health id turn ready c s
          else plain s c (method_error t.bodies id (codes "GET")))
      else plain s c (failed id 404 route_not_found)

  unfoldable pub handle : Text → Turn Value → Request → Option Connection → HttpState → Handled
  unfolding route_request
  handle id turn r c s =
      let h = route_request id turn r c s in
      record h {
        connection =
            close_deadline (turn.finished_at + t.config.response_write_timeout) h.connection;
      }
