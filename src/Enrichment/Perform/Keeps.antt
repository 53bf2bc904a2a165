-- ===== src/Enrichment/Perform/Keeps.antt =====
-- What `perform` of src/enrichment.rs returns.
use rust_enrich.Common.{
  ◌≡◌, refl, true, false, Bool, ◌&&◌, if◌then◌else◌, Option, none, some, Result, ok, err, arith,
}
use rust_enrich.Common.Text.{Text}
use rust_enrich.Common.Clock.{DateTime}
use rust_enrich.Domain.Types.{Status, success, not_found, timeout}
use rust_enrich.Domain.Errors.{provider_timeout}
use rust_enrich.Domain.Errors
use rust_enrich.Domain.Outcome.{Outcome, is_cacheable}
use rust_enrich.Domain.Outcome
use rust_enrich.Domain.Indicator.{ValidatedIndicator}
use rust_enrich.Storage.Types.{StorageError}
use rust_enrich.Config.{Duration}
use rust_enrich.Providers.Adapter.{Adapter, payload_version}
use rust_enrich.Enrichment.Lookup.{LookupResult, uncached}
use rust_enrich.Enrichment.Store.{CachedOutcome}
use rust_enrich.Enrichment.Send.{Tools}
use rust_enrich.Enrichment.Fetch.{Instant, fetch}
use rust_enrich.Enrichment.Perform.{
  Course, cached, fill_cache, finish_lookup, fetched, perform, after_read,
}

module _ {Value S : Type 0} (t : Tools Value S) (limit : Duration) where
  -- What a lookup tells whose provider does not answer in time.
  abbrev pub timed_out : Outcome Value
  timed_out = record {
    status = timeout;
    summary = none;
    fetched_at = none;
    provider_updated_at = none;
    error = some (record {
      code = provider_timeout;
      message = "The provider lookup deadline expired.";
      retryable = true;
      retry_after_seconds = none;
    });
    raw = none;
  }

  -- a report, or its absence
  abbrev pub is_kept : Status → Bool
  is_kept success = true
  is_kept not_found = true
  is_kept _ = false

  abbrev pub stored_expiry : Result StorageError (Option DateTime) → Option DateTime
  stored_expiry (ok expiry) = expiry
  stored_expiry (err e) = none

  -- The result of a lookup whose cache held nothing: what it tells, of which provider's answer, and its expiry, from
  -- the state behind `fetch`.
  unfoldable pub IsFresh :
      Adapter
      → Text
      → ValidatedIndicator
      → Course S
      → Outcome Value
      → S
      → LookupResult Value
      → Type 0
  IsFresh a key i course o s r =
      (r.outcome ≡ o)
      × (r.cache_hit ≡ false)
      × (r.expires_at ≡ (
          if is_kept o.status && course.put_in_time
          then stored_expiry (t.store.cache_put a.id key (payload_version a) i.input.kind o s).1
          else none))

  finish_lookup-IsFresh :
      (a : Adapter) (key : Text) (i : ValidatedIndicator) (course : Course S) (o : Outcome Value)
      (s : S)
      → IsFresh a key i course o s (finish_lookup t limit a key i course o s).1
  unfolding finish_lookup fill_cache IsFresh uncached is_cacheable
  finish_lookup-IsFresh a key i course o s = (ground arith, ground arith, ground arith)

  -- What a lookup returns for what it read of the cache: the entry, or what the provider gave, from the state behind
  -- the read.
  unfoldable pub IsAnswer :
      Adapter
      → Text
      → ValidatedIndicator
      → Instant
      → Course S
      → S
      → Result StorageError (Option (CachedOutcome Value))
      → S × LookupResult Value
      → Type 0
  IsAnswer a key i deadline course s (ok (some c)) (s', r) =
      (s' ≡ s) × (r.outcome ≡ c.outcome) × (r.cache_hit ≡ true) × (r.expires_at ≡ some c.expires_at)
  IsAnswer a key i deadline course s _ (s', r) =
      let f = fetch t limit a i deadline course.rounds s in
      if course.fetch_in_time
      then IsFresh a key i course f.outcome f.store r
      else IsFresh a key i course timed_out (course.cut s) r

  either-IsFresh :
      (a : Adapter) (key : Text) (i : ValidatedIndicator) (course : Course S) (in_time : Bool)
      (p q : S × Outcome Value)
      → (let f = if in_time then p else q in
          let r = (finish_lookup t limit a key i course f.1 f.0).1 in
          if in_time then IsFresh a key i course p.1 p.0 r else IsFresh a key i course q.1 q.0 r)
  either-IsFresh a key i course true p q = finish_lookup-IsFresh a key i course p.1 p.0
  either-IsFresh a key i course false p q = finish_lookup-IsFresh a key i course q.1 q.0

  fetched-IsAnswer :
      (a : Adapter) (key : Text) (i : ValidatedIndicator) (deadline : Instant) (course : Course S)
      (s : S)
      → IsAnswer a key i deadline course s (ok none) (
          let f = fetched t limit a i deadline course s in
          finish_lookup t limit a key i course f.1 f.0)
  unfolding IsAnswer fetched Outcome.failure Outcome.empty Errors.status Errors.new
  fetched-IsAnswer a key i deadline course s =
      let f = fetch t limit a i deadline course.rounds s in
      either-IsFresh a key i course course.fetch_in_time (f.store, f.outcome)
        (course.cut s, timed_out)

  after_read-IsAnswer :
      (a : Adapter) (key : Text) (i : ValidatedIndicator) (deadline : Instant) (course : Course S)
      (s : S) (read : Result StorageError (Option (CachedOutcome Value)))
      → IsAnswer a key i deadline course s read (after_read t limit a key i deadline course s read)
  unfolding IsAnswer cached
  after_read-IsAnswer a key i deadline course s (ok (some c)) = (refl, refl, refl, refl)
  after_read-IsAnswer a key i deadline course s (ok none) =
      fetched-IsAnswer a key i deadline course s
  after_read-IsAnswer a key i deadline course s (err e) = fetched-IsAnswer a key i deadline course s

  -- A lookup that reads an entry of the cache returns its outcome and its expiry as a hit, and touches nothing else. If
  -- it reads none or the cache fails, it returns the outcome of `fetch`, or the error "provider_timeout" if that is cut
  -- off, unchanged however the call that fills the cache ends, and not as a hit; its expiry is the one that this call
  -- gives, if the outcome is a report or its absence and the call ends in time, and else there is none.
  pub perform-IsAnswer :
      (a : Adapter) (key : Text) (i : ValidatedIndicator) (deadline : Instant) (course : Course S)
      (s : S)
      → IsAnswer a key i deadline course
          (t.store.cache_get a.id key i.input.kind s).0
          (t.store.cache_get a.id key i.input.kind s).1
          (perform t limit a key i deadline course s)
  unfolding perform
  perform-IsAnswer a key i deadline course s =
      after_read-IsAnswer a key i deadline course (t.store.cache_get a.id key i.input.kind s).0
        (t.store.cache_get a.id key i.input.kind s).1
