-- ===== src/Enrichment/Send/Limited.antt =====
-- What `send` of src/enrichment.rs does with status 429.
use rust_enrich.Common.{
  ℕ, ◌≡◌, refl, false, Option, List, [], Result, ok, err, none, some, true, is_some, sym, subst,
  Option-cases, inl, inr, if◌then◌else◌, arith, ◌∙◌, ap,
}
use rust_enrich.Common.Clock.{DateTime}
use rust_enrich.Common.Text.{codes}
use rust_enrich.Domain.Errors.{ErrorCode, PublicError, quota_exhausted}
use rust_enrich.Domain.Types.{rate_limited}
use rust_enrich.Domain.Errors
use rust_enrich.Domain.Outcome.{Outcome, is_cacheable}
use rust_enrich.Domain.Outcome
use rust_enrich.Domain.Indicator.{ValidatedIndicator}
use rust_enrich.Storage.Types.{StorageError, QuotaFeedback}
use rust_enrich.Config.{Duration}
use rust_enrich.Providers.Adapter.{Adapter, ProviderRequest, request}
use rust_enrich.Providers.Decode.{decode, decode_error}
use rust_enrich.Enrichment.Transport.{TransportError, Body, whole, collect}
use rust_enrich.Enrichment.Feedback.{
  Headers, from_secs, seconds_until, parse_retry_after, feedback_from_headers,
}
use rust_enrich.Enrichment.Feedback.Cooldown.{IsLongEnough, feedback_from_headers-IsLongEnough}
use rust_enrich.Enrichment.Send.{
  Tools, Attempt, Exchange, Sent, raw_fits, stamp, tell_delay, finish_send, read_body, receive,
  send, save_feedback, or_failure, with_delay, delay_of, after_request,
}

module _ {Value S : Type 0} (t : Tools Value S) where
  -- What the answer to status 429 is, from the state behind the saved feedback.
  abbrev limited_attempt : Adapter → QuotaFeedback → Option Duration → DateTime → S → Attempt Value
  limited_attempt a f retry_after now s = record {
    outcome =
        with_delay t (delay_of t t.headers f now (t.store.retry_after a.id s).1)
          (Outcome.failure quota_exhausted);
    retry = false;
    retry_after = retry_after;
  }

  decode-429 :
      (a : Adapter) (body : List ℕ) (i : ValidatedIndicator) (now : DateTime)
      → or_failure t (decode t.codec a 429 body i now) ≡ Outcome.failure quota_exhausted
  unfolding decode decode_error
  decode-429 a body i now = refl

  finish-429 :
      (a : Adapter) (f : QuotaFeedback) (retry : Option Duration) (x : Exchange) (s : S)
      → finish_send t a 429 f retry x (Outcome.failure quota_exhausted) s
        ≡ ((t.store.retry_after a.id s).0, ok (limited_attempt a f retry x.now s))
  unfolding finish_send raw_fits stamp tell_delay is_cacheable Outcome.failure Outcome.empty
      Errors.status
  finish-429 a f retry x s = refl

  -- The state and the attempt that answer a response of status 429 with these headers.
  unfoldable limited_answer : Adapter → Headers → DateTime → S → Sent t
  unfolding feedback_from_headers parse_retry_after
  limited_answer a headers now s =
      let f = feedback_from_headers t.headers a.id 429 headers now in
      let saved = save_feedback t a f s in
      (
        (t.store.retry_after a.id saved).0,
        ok (
            limited_attempt a f (parse_retry_after t.headers (headers (codes "retry-after")) now)
              now saved),
      )

  abbrev pub answer_429 :
      Headers
      → List (Result {0} TransportError (List ℕ))
      → DateTime
      → DateTime
      → DateTime
      → Exchange
  answer_429 headers chunks now decoded_at fetched_at = record {
    answer = ok (record { status = 429; headers = headers; chunks = chunks });
    now = now;
    decoded_at = decoded_at;
    fetched_at = fetched_at;
  }

  read_body-429 :
      (a : Adapter) (i : ValidatedIndicator) (f : QuotaFeedback) (retry : Option Duration)
      (x : Exchange) (s : S) (b : Body) (body : List ℕ)
      → b ≡ whole body
      → read_body t a i 429 f retry x b s
        ≡ ((t.store.retry_after a.id s).0, ok (limited_attempt a f retry x.now s))
  unfolding read_body
  read_body-429 a i f retry x s b body e =
      ap (λ c. read_body t a i 429 f retry x c s) e
      ∙ ap (λ o. finish_send t a 429 f retry x o s) (decode-429 a body i x.decoded_at)
      ∙ finish-429 a f retry x s

  after_request-ok :
      (a : Adapter) (i : ValidatedIndicator) (x : Exchange) (s : S)
      (r : Result {0} ErrorCode ProviderRequest) (sent : ProviderRequest)
      → r ≡ ok sent
      → after_request t a i x r s ≡ receive t a i x x.answer s
  after_request-ok a i x s r sent e = ap (λ c. after_request t a i x c s) e

  send-answer_429 :
      (a : Adapter) (i : ValidatedIndicator) (headers : Headers)
      (chunks : List (Result {0} TransportError (List ℕ))) (now decoded_at fetched_at : DateTime)
      (s : S) (sent : ProviderRequest) (body : List ℕ)
      → request t.urls a i ≡ ok sent
      → collect t.max_provider_bytes chunks [] ≡ whole body
      → send t a i (answer_429 headers chunks now decoded_at fetched_at) s
        ≡ limited_answer a headers now s
  unfolding send receive limited_answer
  send-answer_429 a i headers chunks now decoded_at fetched_at s sent body e h =
      let x = answer_429 headers chunks now decoded_at fetched_at in
      let f = feedback_from_headers t.headers a.id 429 headers now in
      let retry = parse_retry_after t.headers (headers (codes "retry-after")) now in
      after_request-ok a i x s (request t.urls a i) sent e
      ∙ read_body-429 a i f retry x (save_feedback t a f s) (collect t.max_provider_bytes chunks [])
          body h

  -- The delay that is told of what the storage answered: its own, or, if it fails, the time to the end of the
  -- feedback's cooldown, unless its reset is not known.
  unfoldable pub IsDelay :
      QuotaFeedback → DateTime → Result StorageError (Option ℕ) → Option ℕ → Type 0
  IsDelay f now (ok delay) told = told ≡ delay
  IsDelay f now (err e) told =
      (until : DateTime) × (f.cooldown_until ≡ some until)
      × (told ≡ (if f.unknown_reset then none else some (seconds_until t.headers until now)))

  -- An attempt that tells that the quota is exhausted, with this delay, and the state that it leaves.
  unfoldable pub IsLimited :
      Adapter
      → QuotaFeedback
      → Option Duration
      → DateTime
      → S
      → S × Result ErrorCode (Attempt Value)
      → Type 0
  IsLimited a f retry_after now saved p =
      (o : Attempt Value) × (e : PublicError) × (p ≡ ((t.store.retry_after a.id saved).0, ok o))
      × (o.retry ≡ false)
      × (o.retry_after ≡ retry_after)
      × (o.outcome.status ≡ rate_limited)
      × (o.outcome.summary ≡ none)
      × (o.outcome.raw ≡ none)
      × (o.outcome.error ≡ some e)
      × (e.code ≡ quota_exhausted)
      × IsDelay f now (t.store.retry_after a.id saved).1 e.retry_after_seconds

  delay_of-IsDelay :
      (f : QuotaFeedback) (now until : DateTime) (r : Result {0} StorageError (Option ℕ))
      → f.cooldown_until ≡ some until
      → IsDelay f now r (delay_of t t.headers f now r)
  unfolding IsDelay
  delay_of-IsDelay f now until (ok delay) known = refl
  delay_of-IsDelay f now until (err e) known = (until, known, rw known refl)

  limited_answer-IsLimited :
      (a : Adapter) (headers : Headers) (now : DateTime) (s : S)
      → (until : DateTime) × ((feedback_from_headers t.headers a.id 429 headers now).cooldown_until
          ≡ some until)
      → IsLimited a
          (feedback_from_headers t.headers a.id 429 headers now)
          (parse_retry_after t.headers (headers (codes "retry-after")) now)
          now
          (t.store.feedback a.id (feedback_from_headers t.headers a.id 429 headers now) s).0
          (limited_answer a headers now s)
  unfolding limited_answer IsLimited Outcome.failure Outcome.empty Errors.status Errors.new
  limited_answer-IsLimited a headers now s (until, known) =
      let f = feedback_from_headers t.headers a.id 429 headers now in
      let saved : save_feedback t a f s ≡ (t.store.feedback a.id f s).0 = ground arith in
      let delay =
        delay_of t t.headers f now (t.store.retry_after a.id (t.store.feedback a.id f s).0).1 in
      (
        limited_attempt a f (parse_retry_after t.headers (headers (codes "retry-after")) now) now
            (t.store.feedback a.id f s).0,
        record (Errors.new quota_exhausted) { retry_after_seconds = delay },
        ap
            (λ x. (
              (t.store.retry_after a.id x).0,
              ok (
                  limited_attempt a f
                    (parse_retry_after t.headers (headers (codes "retry-after")) now) now x),
            ))
            saved,
        refl,
        refl,
        refl,
        refl,
        refl,
        refl,
        refl,
        delay_of-IsDelay f now until _ known,
      )

  cooldown-known :
      (a : Adapter) (headers : Headers) (now : DateTime)
      → is_some (t.headers.checked_add now (from_secs 60)) ≡ true
      → (until : DateTime) × ((feedback_from_headers t.headers a.id 429 headers now).cooldown_until
          ≡ some until)
  unfolding IsLongEnough
  cooldown-known a headers now later =
      let (_, _, long) = feedback_from_headers-IsLongEnough t.headers a.id 429 headers now in
      elim (Option-cases (feedback_from_headers t.headers a.id 429 headers now).cooldown_until) [
        | inl unknown ↦ ground arith
        | inr (until, known) ↦ (until, known)
      ]

  -- When the answer to an accepted request has status 429 and its body is collected, whatever the body holds, the
  -- feedback of the headers is saved, and then the storage is asked for the delay. The attempt is not to be repeated,
  -- carries the Retry-After of the headers, and tells "quota_exhausted" without a report, with the storage's delay, or,
  -- if the storage fails, the time to the end of the feedback's cooldown, and none if its reset is not known. A minute
  -- from now must be a time.
  pub send-Limited :
      (a : Adapter) (i : ValidatedIndicator) (headers : Headers)
      (chunks : List (Result {0} TransportError (List ℕ))) (now decoded_at fetched_at : DateTime)
      (s : S) (sent : ProviderRequest) (body : List ℕ)
      → request t.urls a i ≡ ok sent
      → collect t.max_provider_bytes chunks [] ≡ whole body
      → is_some (t.headers.checked_add now (from_secs 60)) ≡ true
      → IsLimited a
          (feedback_from_headers t.headers a.id 429 headers now)
          (parse_retry_after t.headers (headers (codes "retry-after")) now)
          now
          (t.store.feedback a.id (feedback_from_headers t.headers a.id 429 headers now) s).0
          (send t a i (answer_429 headers chunks now decoded_at fetched_at) s)
  send-Limited a i headers chunks now decoded_at fetched_at s sent body e h later =
      let f = feedback_from_headers t.headers a.id 429 headers now in
      subst
        (IsLimited a f (parse_retry_after t.headers (headers (codes "retry-after")) now) now
          (t.store.feedback a.id f s).0)
        (sym (send-answer_429 a i headers chunks now decoded_at fetched_at s sent body e h))
        (limited_answer-IsLimited a headers now s (cooldown-known a headers now later))
