-- ===== src/Enrichment/Store.antt =====
-- What src/enrichment.rs calls of `Storage`, on a state of its own type, and the methods of src/storage.rs that fill it.
-- A deadline that passes is an error of the call.
use rust_enrich.Common.{ℕ, suc, Option, Result}
use rust_enrich.Common.Clock.{DateTime, Chrono}
use rust_enrich.Common.Text.{Text}
use rust_enrich.Domain.Types.{ProviderId, IndicatorKind}
use rust_enrich.Domain.Outcome.{Outcome}
use rust_enrich.Storage.Types.{StorageError, ReservationError, QuotaFeedback}
use rust_enrich.Storage.Service.{Storage, Turn}
use rust_enrich.Storage.Service

pub record CachedOutcome (Value : Type 0) : Type 0 where
  pub outcome : Outcome Value
  pub expires_at : DateTime

pub record Store (Value S : Type 0) : Type 0 where
  pub reserve : ProviderId → S → S × Result ReservationError Unit
  pub feedback : ProviderId → QuotaFeedback → S → S × Result StorageError Unit
  pub retry_after : ProviderId → S → S × Result StorageError (Option ℕ)
  pub cache_get :
      ProviderId → Text → IndicatorKind → S → S × Result StorageError (Option (CachedOutcome Value))
  pub cache_put :
      ProviderId
      → Text
      → ℕ
      → IndicatorKind
      → Outcome Value
      → S
      → S × Result StorageError (Option DateTime)

-- The storage, with what the environment decides of each call, and how many calls there were.
pub record Live : Type 0 where
  pub storage : Storage
  pub calls : ℕ

abbrev step {ℓ} : {R : Type ℓ} → Live → Storage × R → Live × R
step s (storage, r) = (record { storage = storage; calls = suc s.calls }, r)

-- The quota of the service, beside a cache.
unfoldable pub quota_store :
    {Value : Type 0}
    → Chrono
    → (ℕ → Turn)
    → (Live → Live × Result StorageError (Option (CachedOutcome Value)))
    → (Live → Live × Result StorageError (Option DateTime))
    → Store Value Live
quota_store c turns get put = record {
  reserve = λ id s. step s (Service.reserve c id (turns s.calls) s.storage);
  feedback = λ id f s. step s (Service.feedback c id f (turns s.calls) s.storage);
  retry_after = λ id s. step s (Service.retry_after c id (turns s.calls) s.storage);
  cache_get = λ id key kind s. get s;
  cache_put = λ id key version kind outcome s. put s;
}
