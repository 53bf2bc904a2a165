-- ===== src/Http/Handle/Enriched.antt =====
-- What status 200 of the route "/v1/enrich" in src/http.rs means.
use rust_enrich.Common.{
  ℕ, ◌≡◌, refl, Bool, true, false, not, ◌||◌, Option, none, some, List, [], ◌==◌, if◌then◌else◌,
  Result, ok, err, arith, ltb, ◌-◌, ◌++◌, ◌∷◌, length, ap, sym, ◌∙◌, subst,
}
use rust_enrich.Common.Text.{Text, codes, text_eq}
use rust_enrich.Domain.Errors.{
  ErrorCode, request_body_timeout, request_too_large, unsupported_media_type, service_unavailable,
  service_overloaded, unauthorized, response_too_large, invalid_json, validation_error,
}
use rust_enrich.Domain.Validate.{
  ValidatedRequest, RequestValidationError, semantic, validate_request,
}
use rust_enrich.Http.Headers.{authorized, supported_media_type}
use rust_enrich.Http.Headers.Bearer.{IsBearer, authorized-IsBearer}
use rust_enrich.Http.Project.{project}
use rust_enrich.Http.Respond.{Response, response_bytes}
use rust_enrich.Http.Respond.Status.{
  is_200, response_bytes-body, error_response-status, method_error-status,
}
use rust_enrich.Http.Handle.{
  Request, BodyEvent, late, ended, broken, chunk, HttpState, Permit, of_admission, Connection, Turn,
  HttpTools, Handled, failed, collect_body, results_of, finish_enrich, answer_request, after_body,
  enrich_admitted, attach_permit, enrich, route_request, handle, is_post,
}

if-response :
    (b : Bool) (x y : Handled)
    → is_200 y.response ≡ false
    → is_200 (if b then x else y).response ≡ true
    → (b ≡ true) × ((if b then x else y).response ≡ x.response)
if-response true x y h k = (refl, refl)
if-response false x y h k = cc

taken : (b : Bool) (x y : Handled) → b ≡ true → (if b then x else y).response ≡ x.response
taken true x y h = refl
taken false x y h = cc

unless-response :
    (b : Bool) (x y : Handled)
    → is_200 x.response ≡ false
    → is_200 (if b then x else y).response ≡ true
    → (b ≡ false) × ((if b then x else y).response ≡ y.response)
unless-response true x y h k = cc
unless-response false x y h k = (refl, refl)

attach-response :
    (s : HttpState) (c : Option Connection) (p : Permit) (r : Response)
    → (attach_permit s c p r).response ≡ r
unfolding attach_permit
attach-response s none p r = refl
attach-response s (some c) p r = refl

err-inj : {E A : Type 0} {a b : E} → Path (Result E A) (err a) (err b) → a ≡ b
err-inj e = cc

module _ {Value : Type 0} (t : HttpTools Value) (id : Text) (turn : Turn Value) where
  -- The body is the projection of the results of a request that was collected and validated.
  unfoldable pub IsEnriched : Request → Response → Type 0
  IsEnriched r response =
      (bytes : List ℕ) × (request : ValidatedRequest) × (collect_body t id r.body [] ≡ ok bytes)
      × (validate_request t.from_slice t.parsers bytes t.config.max_batch_size turn.enabled
          ≡ ok request)
      × (project t.writers id request (results_of t turn request) t.config.max_raw_response_bytes
          ≡ ok response.body)

  -- The request was let in by a bearer's credential, and its type is supported.
  unfoldable pub IsAdmitted : HttpState → Request → Response → Type 0
  IsAdmitted s r response =
      IsBearer t.headers s.token_digest r.headers.authorization
      × (is_post t r.method ≡ true)
      × (supported_media_type t.headers r.headers ≡ true)
      × (turn.stopping ≡ false)
      × IsEnriched r response

  finish-200 :
      (wd : ℕ) (p : Result {0} ErrorCode (List ℕ))
      → is_200 (finish_enrich t id turn wd p) ≡ true
      → p ≡ ok (finish_enrich t id turn wd p).body
  unfolding finish_enrich
  finish-200 wd (err e) h = cc (error_response-status t.bodies id 500 response_too_large none refl)
  finish-200 wd (ok out) h = in_time (ltb turn.projected_at wd) h
    where
      in_time :
          (b : Bool)
          → is_200
              (if b then response_bytes t.bodies id 200 out else failed t id 500 response_too_large)
            ≡ true
          → Path (Result {0} ErrorCode (List ℕ)) (ok out) (
              ok
                (if b
                  then response_bytes t.bodies id 200 out
                  else failed t id 500 response_too_large).body)
      in_time true h = ap (λ bytes. ok bytes) (sym (response_bytes-body t.bodies id 200 out))
      in_time false h = cc (error_response-status t.bodies id 500 response_too_large none refl)

  answer-200 :
      (r : Request) (c : Option Connection) (bytes : List ℕ)
      (v : Result {0} RequestValidationError ValidatedRequest)
      → collect_body t id r.body [] ≡ ok bytes
      → validate_request t.from_slice t.parsers bytes t.config.max_batch_size turn.enabled ≡ v
      → is_200 (answer_request t id turn c v).1 ≡ true
      → IsEnriched r (answer_request t id turn c v).1
  unfolding answer_request IsEnriched
  answer-200 r c bytes (err RequestValidationError.invalid_json) g e h =
      cc (error_response-status t.bodies id 400 invalid_json none refl)
  answer-200 r c bytes (err (semantic details)) g e h =
      cc (error_response-status t.bodies id 422 validation_error (some details) refl)
  answer-200 r c bytes (ok request) g e h = (bytes, request, g, e, finish-200 _ _ h)

  chunk-status :
      (b : Bool) (rest : Result {0} Response (List ℕ)) (code : ErrorCode) (response : Response)
      → (rest ≡ err response → is_200 response ≡ false)
      → (if b then err (failed t id 413 code) else rest) ≡ err response
      → is_200 response ≡ false
  chunk-status true rest code response h e =
      ap is_200 (sym (err-inj e)) ∙ error_response-status t.bodies id 413 code none refl
  chunk-status false rest code response h e = h e

  collect_body-status :
      (events : List BodyEvent) (body : List ℕ) (response : Response)
      → collect_body t id events body ≡ err response
      → is_200 response ≡ false
  unfolding collect_body
  collect_body-status [] body response e = cc
  collect_body-status (late ∷ events) body response e =
      ap is_200 (sym (err-inj e))
      ∙ error_response-status t.bodies id 408 request_body_timeout none refl
  collect_body-status (ended ∷ events) body response e = cc
  collect_body-status (broken ∷ events) body response e =
      ap is_200 (sym (err-inj e)) ∙ error_response-status t.bodies id 400 invalid_json none refl
  collect_body-status (chunk c ∷ events) body response e =
      chunk-status (ltb (t.config.max_request_bytes - length body) (length c))
        (collect_body t id events (body ++ c)) request_too_large response
        (collect_body-status events (body ++ c) response) e

  after_body-200 :
      (r : Request) (c : Option Connection) (b : Result {0} Response (List ℕ))
      → collect_body t id r.body [] ≡ b
      → is_200 (after_body t id turn c b).1 ≡ true
      → IsEnriched r (after_body t id turn c b).1
  unfolding after_body
  after_body-200 r c (err response) g h = cc (collect_body-status r.body [] response g)
  after_body-200 r c (ok bytes) g h = answer-200 r c bytes _ g refl h

  admitted-200 :
      (r : Request) (c : Option Connection)
      → is_200 (enrich_admitted t id turn r c).1 ≡ true
      → (supported_media_type t.headers r.headers ≡ true)
        × IsEnriched r (enrich_admitted t id turn r c).1
  unfolding enrich_admitted
  admitted-200 r c h =
      media (supported_media_type t.headers r.headers)
        (after_body t id turn c (collect_body t id r.body [])) (after_body-200 r c _ refl) h
    where
      media :
          (b : Bool) (x : Option Connection × Response)
          → (is_200 x.1 ≡ true → IsEnriched r x.1)
          → is_200 (if b then x else (c, failed t id 415 unsupported_media_type)).1 ≡ true
          → (b ≡ true)
            × IsEnriched r (if b then x else (c, failed t id 415 unsupported_media_type)).1
      media true x k h = (refl, k h)
      media false x k h =
          cc (error_response-status t.bodies id 415 unsupported_media_type none refl)

  -- what the branches of `enrich` leave of the response
  enrich-200 :
      (r : Request) (c : Option Connection) (s : HttpState)
      → is_200 (enrich t id turn r c s).response ≡ true
      → (turn.stopping ≡ false)
        × (d : Option Connection) × ((enrich t id turn r c s).response
            ≡ (enrich_admitted t id turn r d).1)
  unfolding enrich
  enrich-200 r c s h =
      let (up, same) =
        unless-response (turn.stopping || not turn.healthy) _ _
          (error_response-status t.bodies id 503 service_unavailable none refl) h in
      let (free, same') =
        unless-response (s.admission == 0) _ _
          (error_response-status t.bodies id 503 service_overloaded none refl)
          (ap is_200 (sym same) ∙ h) in
      (ground arith, _, same ∙ same' ∙ attach-response _ _ of_admission _)

  route-200 :
      (r : Request) (c : Option Connection) (s : HttpState)
      → text_eq r.path (codes "/v1/enrich") ≡ true
      → is_200 (route_request t id turn r c s).response ≡ true
      → (is_post t r.method ≡ true)
        × (authorized t.headers s.token_digest r.headers ≡ true)
        × ((route_request t id turn r c s).response ≡ (enrich t id turn r c s).response)
  unfolding route_request
  route-200 r c s e h =
      let here = taken (text_eq r.path (codes "/v1/enrich")) _ _ e in
      let (posted, same) =
        if-response (is_post t r.method) _ _ (method_error-status t.bodies id (codes "POST"))
          (ap is_200 (sym here) ∙ h) in
      let (known, same') =
        if-response (authorized t.headers s.token_digest r.headers) _ _
          (error_response-status t.bodies id 401 unauthorized none refl)
          (ap is_200 (sym (here ∙ same)) ∙ h) in
      (posted, known, here ∙ same ∙ same')

  -- A response of the route "/v1/enrich" has status 200 only if the request is a POST with a single bearer's credential of the
  -- service token's digest and a supported media type, while the service is not stopping. Its body is then what `project`
  -- writes of the lookups of the request that was collected and validated.
  pub handle-IsAdmitted :
      (r : Request) (c : Option Connection) (s : HttpState)
      → text_eq r.path (codes "/v1/enrich") ≡ true
      → (handle t id turn r c s).response.status ≡ 200
      → IsAdmitted s r (handle t id turn r c s).response
  unfolding handle IsAdmitted
  handle-IsAdmitted r c s e h =
      let ok_route = ap (λ n. n == 200) h in
      let (posted, known, same) = route-200 r c s e ok_route in
      let ok_enrich = ap is_200 (sym same) ∙ ok_route in
      let (up, d, same') = enrich-200 r c s ok_enrich in
      let (media, enriched) = admitted-200 r d (ap is_200 (sym same') ∙ ok_enrich) in
      (
        authorized-IsBearer t.headers s.token_digest r.headers known,
        posted,
        media,
        up,
        subst (IsEnriched r) (sym (same ∙ same')) enriched,
      )
