-- ===== src/Enrichment/Perform.antt =====
-- `perform` and the tuple of `cache_key` of src/enrichment.rs. SHA-256 and the JSON of the tuple are a parameter; what
-- the runtime decides of the two timeouts is a `Course`.
pub mod Keeps
use rust_enrich.Common.{ℕ, Bool, true, false, Option, none, some, Result, ok, err, if◌then◌else◌}
use rust_enrich.Common.Clock.{DateTime}
use rust_enrich.Common.Text.{Text}
use rust_enrich.Domain.Types.{ProviderId, IndicatorKind, HashAlgorithm}
use rust_enrich.Domain.Errors.{ErrorCode, provider_timeout}
use rust_enrich.Domain.Outcome.{Outcome, is_cacheable}
use rust_enrich.Domain.Outcome
use rust_enrich.Domain.Indicator.{ValidatedIndicator}
use rust_enrich.Storage.Types.{StorageError}
use rust_enrich.Config.{Duration}
use rust_enrich.Providers.Adapter.{Adapter, CacheOptions, payload_version, cache_options}
use rust_enrich.Enrichment.Lookup.{LookupResult, uncached}
use rust_enrich.Enrichment.Store.{CachedOutcome}
use rust_enrich.Enrichment.Send.{Tools}
use rust_enrich.Enrichment.Fetch.{Instant, Round, Fetched, fetch}

-- The tuple that is hashed.
pub record KeyParts : Type 0 where
  pub provider : ProviderId
  pub version : ℕ
  pub kind : IndicatorKind
  pub hash_algorithm : Option HashAlgorithm
  pub lookup_value : Text
  pub options : CacheOptions

unfoldable pub cache_key : {Key : Type 0} → (KeyParts → Key) → Adapter → ValidatedIndicator → Key
unfolding payload_version cache_options
cache_key digest a i = digest (record {
  provider = a.id;
  version = payload_version a;
  kind = i.input.kind;
  hash_algorithm = i.hash_algorithm;
  lookup_value = i.lookup_value;
  options = cache_options a;
})

-- The rounds of `fetch`; whether it ends before the lookup's deadline, and else what it had done of the storage; the
-- same of the call that fills the cache.
pub record Course (S : Type 0) : Type 0 where
  pub rounds : ℕ → Round S
  pub fetch_in_time : Bool
  pub cut : S → S
  pub put_in_time : Bool
  pub put_cut : S → S

module _ {Value S : Type 0} (t : Tools Value S) (provider_timeout_limit : Duration) where
  abbrev pub Performed : Type 0
  Performed = S × LookupResult Value

  unfoldable pub cached : CachedOutcome Value → LookupResult Value
  cached c = record { outcome = c.outcome; cache_hit = true; expires_at = some c.expires_at }

  abbrev expiry_of : Result StorageError (Option DateTime) → Option DateTime
  expiry_of (ok expiry) = expiry
  expiry_of (err e) = none

  -- a cache timeout does not erase the report
  unfoldable pub fill_cache :
      Adapter → Text → ValidatedIndicator → Course S → Outcome Value → S → Performed
  unfolding uncached payload_version
  fill_cache a key i course o s =
      let put = t.store.cache_put a.id key (payload_version a) i.input.kind o s in
      if course.put_in_time
      then (put.0, record (uncached o) { expires_at = expiry_of put.1 })
      else (course.put_cut s, uncached o)

  unfoldable pub finish_lookup :
      Adapter → Text → ValidatedIndicator → Course S → Outcome Value → S → Performed
  unfolding fill_cache is_cacheable
  finish_lookup a key i course o s =
      if is_cacheable o then fill_cache a key i course o s else (s, uncached o)

  -- `timeout_at(deadline, self.fetch(…))`
  unfoldable pub fetched : Adapter → ValidatedIndicator → Instant → Course S → S → S × Outcome Value
  unfolding fetch
  fetched a i deadline course s =
      let f = fetch t provider_timeout_limit a i deadline course.rounds s in
      if course.fetch_in_time
      then (f.store, f.outcome)
      else (course.cut s, Outcome.failure provider_timeout)

  abbrev after_read :
      Adapter
      → Text
      → ValidatedIndicator
      → Instant
      → Course S
      → S
      → Result StorageError (Option (CachedOutcome Value))
      → Performed
  after_read a key i deadline course s (ok (some c)) = (s, cached c)
  after_read a key i deadline course s _ =
      let (s', o) = fetched a i deadline course s in finish_lookup a key i course o s'

  unfoldable pub perform : Adapter → Text → ValidatedIndicator → Instant → Course S → S → Performed
  unfolding cached fetched finish_lookup
  perform a key i deadline course s =
      let (s', r) = t.store.cache_get a.id key i.input.kind s in
      after_read a key i deadline course s' r
