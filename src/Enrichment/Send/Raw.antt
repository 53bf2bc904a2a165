-- ===== src/Enrichment/Send/Raw.antt =====
-- What `send` of src/enrichment.rs lets through.
use rust_enrich.Common.{
  ℕ, ◌≡◌, refl, Bool, true, false, not, ◌||◌, Option, none, some, [], Result, ok, err, leb,
  if◌then◌else◌, is_some, arith, sym, ◌∙◌, subst, ok-inj,
}
use rust_enrich.Common.Clock.{DateTime}
use rust_enrich.Common.Text.{codes}
use rust_enrich.Domain.Errors.{ErrorCode, network_error, response_too_large}
use rust_enrich.Domain.Errors
use rust_enrich.Domain.Outcome.{Outcome, is_cacheable}
use rust_enrich.Domain.Outcome
use rust_enrich.Domain.Indicator.{ValidatedIndicator}
use rust_enrich.Storage.Types.{QuotaFeedback}
use rust_enrich.Serialization.{total, write_parts-Fits}
use rust_enrich.Config.{Duration}
use rust_enrich.Providers.Adapter.{Adapter, ProviderRequest, request}
use rust_enrich.Providers.Decode.{decode}
use rust_enrich.Enrichment.Transport.{
  TransportError, transport_code, Body, whole, interrupted, failed, collect,
}
use rust_enrich.Enrichment.Feedback.{parse_retry_after, feedback_from_headers}
use rust_enrich.Enrichment.Send.{
  Tools, Attempt, Exchange, Response, Sent, raw_fits, stamp, tell_delay, finish_send, read_body,
  receive, send, save_feedback, or_failure, after_request,
}

-- The size of the raw report in an outcome; an outcome without one has none.
unfoldable pub raw_size : {Value S : Type 0} → Tools Value S → Option Value → ℕ
raw_size t none = 0
raw_size t (some raw) = total (t.codec.raw_parts raw)

-- The raw report is within the limit, and a report or its absence is dated.
unfoldable pub IsSendable : {Value S : Type 0} → Tools Value S → Outcome Value → Type 0
IsSendable t o =
    (leb (raw_size t o.raw) t.max_provider_bytes ≡ true)
    × ((not (is_cacheable o) || is_some o.fetched_at) ≡ true)

module _ {Value S : Type 0} (t : Tools Value S) where
  Promise : Sent t → Type 0
  Promise (s, err code) = Unit
  Promise (s, ok a) = IsSendable t a.outcome

  raw_fits_lem : (raw : Option Value) → raw_fits t raw ≡ leb (raw_size t raw) t.max_provider_bytes
  unfolding raw_fits raw_size
  raw_fits_lem none = ground arith
  raw_fits_lem (some raw) = write_parts-Fits t.max_provider_bytes (t.codec.raw_parts raw)

  stamp-dated :
      (now : DateTime) (o : Outcome Value)
      → (not (is_cacheable (stamp t now o)) || is_some (stamp t now o).fetched_at) ≡ true
  unfolding stamp is_cacheable
  stamp-dated now o = ground arith

  tell_delay-IsSendable :
      (a : Adapter) (status : ℕ) (f : QuotaFeedback) (now : DateTime) (o : Outcome Value) (s : S)
      → IsSendable t o
      → IsSendable t (tell_delay t a status f now o s).1
  unfolding tell_delay IsSendable is_cacheable raw_size
  tell_delay-IsSendable a status f now o s (fits, dated) = (ground arith, ground arith)

  stamp-fits :
      (now : DateTime) (o : Outcome Value)
      → leb (raw_size t o.raw) t.max_provider_bytes ≡ true
      → leb (raw_size t (stamp t now o).raw) t.max_provider_bytes ≡ true
  unfolding stamp
  stamp-fits now o h = ground arith

  stamp-IsSendable :
      (now : DateTime) (o : Outcome Value) → raw_fits t o.raw ≡ true → IsSendable t (stamp t now o)
  unfolding IsSendable
  stamp-IsSendable now o h = (stamp-fits now o (sym (raw_fits_lem o.raw) ∙ h), stamp-dated now o)

  if-Promise :
      (b : Bool) (sent other : Sent t)
      → (b ≡ true → Promise sent)
      → Promise other
      → Promise (if b then sent else other)
  if-Promise true sent other h k = h refl
  if-Promise false sent other h k = k

  finish_send-Promise :
      (a : Adapter) (status : ℕ) (f : QuotaFeedback) (retry : Option Duration) (x : Exchange)
      (o : Outcome Value) (s : S)
      → Promise (finish_send t a status f retry x o s)
  unfolding finish_send Promise
  finish_send-Promise a status f retry x o s =
      if-Promise (raw_fits t o.raw) _ (s, err response_too_large)
        (λ fits.
          tell_delay-IsSendable a status f x.now (stamp t x.fetched_at o) s
            (stamp-IsSendable x.fetched_at o fits))
        tt

  failure-IsSendable : (code : ErrorCode) → IsSendable t (Outcome.failure code)
  unfolding IsSendable raw_size Outcome.failure Outcome.empty is_cacheable Errors.status
  failure-IsSendable code = (ground arith, ground arith)

  read_body-Promise :
      (a : Adapter) (i : ValidatedIndicator) (status : ℕ) (f : QuotaFeedback)
      (retry : Option Duration) (x : Exchange) (body : Body) (s : S)
      → Promise (read_body t a i status f retry x body s)
  unfolding read_body Promise
  read_body-Promise a i status f retry x interrupted s = failure-IsSendable network_error
  read_body-Promise a i status f retry x (failed code) s = tt
  read_body-Promise a i status f retry x (whole body) s =
      finish_send-Promise a status f retry x
        (or_failure t (decode t.codec a status body i x.decoded_at)) s

  receive-Promise :
      (a : Adapter) (i : ValidatedIndicator) (x : Exchange) (r : Result {0} TransportError Response)
      (s : S)
      → Promise (receive t a i x r s)
  unfolding receive Promise
  receive-Promise a i x (err e) s = failure-IsSendable (transport_code e)
  receive-Promise a i x (ok r) s =
      let f = feedback_from_headers t.headers a.id r.status r.headers x.now in
      read_body-Promise a i r.status f
        (parse_retry_after t.headers (r.headers (codes "retry-after")) x.now) x
        (collect t.max_provider_bytes r.chunks []) (save_feedback t a f s)

  after_request-Promise :
      (a : Adapter) (i : ValidatedIndicator) (x : Exchange)
      (r : Result {0} ErrorCode ProviderRequest) (s : S)
      → Promise (after_request t a i x r s)
  unfolding Promise
  after_request-Promise a i x (err code) s = tt
  after_request-Promise a i x (ok r) s = receive-Promise a i x x.answer s

  take-Promise :
      (sent : Sent t) (attempt : Attempt Value)
      → Promise sent
      → sent.1 ≡ ok attempt
      → IsSendable t attempt.outcome
  unfolding Promise
  take-Promise (s, err code) attempt h e = cc
  take-Promise (s, ok a) attempt h e =
      subst (λ (b : Attempt Value). IsSendable t b.outcome) (ok-inj e) h

  -- Whatever the provider answers and however the body is cut, an outcome that `send` returns holds a raw report that is
  -- written within `max_provider_bytes`, if any, and has a time of fetching if its status is "ok" or "not_found".
  pub send-IsSendable :
      (a : Adapter) (i : ValidatedIndicator) (x : Exchange) (s : S) (attempt : Attempt Value)
      → (send t a i x s).1 ≡ ok attempt
      → IsSendable t attempt.outcome
  unfolding send
  send-IsSendable a i x s attempt e =
      take-Promise (send t a i x s) attempt (after_request-Promise a i x (request t.urls a i) s) e
