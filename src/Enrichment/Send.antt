-- ===== src/Enrichment/Send.antt =====
-- `send` of src/enrichment.rs. What the network and the clock decide of one exchange is an argument; a stream of a response ends.
pub mod Raw
pub mod Limited
use rust_enrich.Common.{
  ℕ, Bool, true, false, not, ◌||◌, ◌&&◌, Option, none, some, List, [], Result, ok, err, ◌==◌, leb,
  if◌then◌else◌, is_ok, is_some,
}
use rust_enrich.Common.Clock.{DateTime}
use rust_enrich.Common.Text.{codes}
use rust_enrich.Domain.Types.{Status, success, not_found}
use rust_enrich.Domain.Errors.{ErrorCode, network_error, response_too_large, PublicError}
use rust_enrich.Domain.Outcome.{Outcome, is_cacheable}
use rust_enrich.Domain.Outcome
use rust_enrich.Domain.Indicator.{ValidatedIndicator}
use rust_enrich.Storage.Types.{StorageError, QuotaFeedback}
use rust_enrich.Serialization.{write_parts}
use rust_enrich.Serialization
use rust_enrich.Config.{Duration}
use rust_enrich.Providers.Adapter.{Adapter, UrlTools, ProviderRequest, request}
use rust_enrich.Providers.Report.{Codec}
use rust_enrich.Providers.Decode.{decode}
use rust_enrich.Enrichment.Feedback.{
  HeaderTools, Headers, seconds_until, parse_retry_after, feedback_from_headers,
}
use rust_enrich.Enrichment.Transport.{
  TransportError, transport_code, transport_retry, Body, whole, interrupted, failed, collect,
}
use rust_enrich.Enrichment.Store.{Store}

pub record Attempt (Value : Type 0) : Type 0 where
  pub outcome : Outcome Value
  pub retry : Bool
  pub retry_after : Option Duration

pub record Response : Type 0 where
  pub status : ℕ
  pub headers : Headers
  pub chunks : List (Result {0} TransportError (List ℕ))

-- One exchange: how the request is answered, and the three readings of the clock.
pub record Exchange : Type 0 where
  pub answer : Result {0} TransportError Response
  pub now : DateTime
  pub decoded_at : DateTime
  pub fetched_at : DateTime

-- What `send` uses of its surroundings.
pub record Tools (Value S : Type 0) : Type 0 where
  pub codec : Codec Value
  pub urls : UrlTools
  pub headers : HeaderTools
  pub store : Store Value S
  pub max_provider_bytes : ℕ

-- `matches!(status, 502..=504)`
abbrev is_gateway_error : ℕ → Bool
is_gateway_error status = leb 502 status && leb status 504

module _ {Value S : Type 0} (t : Tools Value S) where
  abbrev pub Sent : Type 0
  Sent = S × Result ErrorCode (Attempt Value)

  abbrev failure_of : ErrorCode → Bool → Attempt Value
  failure_of code retry = record {
    outcome = Outcome.failure code;
    retry = retry;
    retry_after = none;
  }

  abbrev save_feedback : Adapter → QuotaFeedback → S → S
  save_feedback a f s =
      if is_some f.cooldown_until || is_some f.remaining then (t.store.feedback a.id f s).0 else s

  abbrev or_failure : Result {0} ErrorCode (Outcome Value) → Outcome Value
  or_failure (ok outcome) = outcome
  or_failure (err code) = Outcome.failure code

  -- the raw report is written within the limit, if there is one
  unfoldable pub raw_fits : Option Value → Bool
  unfolding write_parts Serialization.new
  raw_fits none = true
  raw_fits (some raw) =
      is_ok (write_parts (Serialization.new t.max_provider_bytes) (t.codec.raw_parts raw)).1

  unfoldable pub stamp : DateTime → Outcome Value → Outcome Value
  unfolding is_cacheable
  stamp now o = if is_cacheable o then record o { fetched_at = some now } else o

  -- what the caller of a limited provider is told: the storage's delay, or the feedback's own
  abbrev pub delay_of :
      HeaderTools → QuotaFeedback → DateTime → Result {0} StorageError (Option ℕ) → Option ℕ
  delay_of h f now (ok delay) = delay
  delay_of h f now (err e) = if f.unknown_reset then none else until f.cooldown_until
    where
      until : Option DateTime → Option ℕ
      until none = none
      until (some time) = some (seconds_until h time now)

  abbrev pub with_delay : Option ℕ → Outcome Value → Outcome Value
  with_delay delay o = record o { error = put o.error }
    where
      put : Option PublicError → Option PublicError
      put none = none
      put (some e) = some (record e { retry_after_seconds = delay })

  -- the last step, on the outcome of status 429 that carries an error, or another
  unfoldable pub tell_delay :
      Adapter → ℕ → QuotaFeedback → DateTime → Outcome Value → S → S × Outcome Value
  tell_delay a status f now o s =
      if status == 429 && is_some o.error
      then (
        (t.store.retry_after a.id s).0,
        with_delay (delay_of t.headers f now (t.store.retry_after a.id s).1) o,
      )
      else (s, o)

  unfoldable pub finish_send :
      Adapter → ℕ → QuotaFeedback → Option Duration → Exchange → Outcome Value → S → Sent
  unfolding raw_fits stamp tell_delay
  finish_send a status f retry_after x o s =
      let told = tell_delay a status f x.now (stamp x.fetched_at o) s in
      if raw_fits o.raw
      then (
        told.0,
        ok (record {
          outcome = told.1;
          retry = is_gateway_error status;
          retry_after = retry_after;
        }),
      )
      else (s, err response_too_large)

  unfoldable pub read_body :
      Adapter
      → ValidatedIndicator
      → ℕ
      → QuotaFeedback
      → Option Duration
      → Exchange
      → Body
      → S
      → Sent
  unfolding finish_send decode
  read_body a i status f retry_after x interrupted s = (s, ok (failure_of network_error true))
  read_body a i status f retry_after x (failed code) s = (s, err code)
  read_body a i status f retry_after x (whole body) s =
      finish_send a status f retry_after x
        (or_failure (decode t.codec a status body i x.decoded_at)) s

  unfoldable pub receive :
      Adapter → ValidatedIndicator → Exchange → Result {0} TransportError Response → S → Sent
  unfolding read_body collect feedback_from_headers parse_retry_after
  receive a i x (err e) s = (s, ok (failure_of (transport_code e) (transport_retry e)))
  receive a i x (ok r) s =
      let f = feedback_from_headers t.headers a.id r.status r.headers x.now in
      read_body a i r.status f (parse_retry_after t.headers (r.headers (codes "retry-after")) x.now)
        x (collect t.max_provider_bytes r.chunks []) (save_feedback a f s)

  abbrev after_request :
      Adapter → ValidatedIndicator → Exchange → Result {0} ErrorCode ProviderRequest → S → Sent
  after_request a i x (err code) s = (s, err code)
  after_request a i x (ok _) s = receive a i x x.answer s

  unfoldable pub send : Adapter → ValidatedIndicator → Exchange → S → Sent
  unfolding receive request
  send a i x s = after_request a i x (request t.urls a i) s
