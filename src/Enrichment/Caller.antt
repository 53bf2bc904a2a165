-- ===== src/Enrichment/Caller.antt =====
-- `lookup` and `subscribe` of src/enrichment.rs, from the caller's side: what it is told at once, or the channel that it waits
-- on, and what it makes of what it reads there. What the caller's deadline cuts off is an argument of each.
pub mod Told
use rust_enrich.Common.{ℕ, Bool, true, false, Option, none, some, Result, ok, err, if◌then◌else◌}
use rust_enrich.Common.Text.{Text}
use rust_enrich.Domain.Types.{ProviderId, IndicatorKind, disabled, unsupported}
use rust_enrich.Domain.Errors.{ErrorCode, internal_error, request_deadline_exceeded}
use rust_enrich.Domain.Outcome.{empty}
use rust_enrich.Domain.Indicator.{ValidatedIndicator}
use rust_enrich.Storage.Types.{StorageError}
use rust_enrich.Providers.Adapter.{Adapter, supports}
use rust_enrich.Enrichment.Lookup.{LookupResult, uncached, failure}
use rust_enrich.Enrichment.Store.{Store, CachedOutcome}
use rust_enrich.Enrichment.Flights.{Service, Reply, refused, receives, register}

-- What a caller has behind `subscribe`.
pub data Subscribed (Value : Type 0) : Type 0 where
  answered : LookupResult Value → Subscribed Value
  waiting : ℕ → Bool → Subscribed Value

-- What ends the waiting on a channel: a value, the end of the sender, or the caller's deadline.
pub data Received (Value : Type 0) : Type 0 where
  value : LookupResult Value → Received Value
  closed late : Received Value

-- The storage and the flights, which the callers share.
pub record World (Value S : Type 0) : Type 0 where
  pub store : S
  pub service : Service Value

module _ {Value S : Type 0} (store : Store Value S) where
  abbrev subscribed : Reply → Subscribed Value
  subscribed (refused code) = answered (failure code)
  subscribed (receives c joined) = waiting c joined

  abbrev hit : CachedOutcome Value → LookupResult Value
  hit c = record { outcome = c.outcome; cache_hit = true; expires_at = some c.expires_at }

  abbrev enter : ProviderId → Text → World Value S → World Value S × Subscribed Value
  enter id key w =
      let (service, reply) = register (id, key) w.service in
      (record w { service = service }, subscribed reply)

  unfoldable pub after_cache :
      ProviderId
      → Text
      → World Value S
      → Result StorageError (Option (CachedOutcome Value))
      → World Value S × Subscribed Value
  unfolding register failure
  after_cache id key w (ok (some c)) = (w, answered (hit c))
  after_cache id key w (ok none) = enter id key w
  after_cache id key w (err e) = enter id key w

  -- The key is none if its tuple cannot be written as JSON; `cut` says what the read of the cache had done of the storage if the
  -- caller's deadline passes meanwhile.
  unfoldable pub subscribe :
      ProviderId
      → ValidatedIndicator
      → Option Text
      → Option (S → S)
      → World Value S
      → World Value S × Subscribed Value
  unfolding after_cache failure
  subscribe id i none cut w = (w, answered (failure internal_error))
  subscribe id i (some key) (some cut) w =
      (record w { store = cut w.store }, answered (failure request_deadline_exceeded))
  subscribe id i (some key) none w =
      let (s, read) = store.cache_get id key i.input.kind w.store in
      after_cache id key (record w { store = s }) read

  -- the part of `lookup` up to the waiting
  unfoldable pub start_lookup :
      Option Adapter
      → ValidatedIndicator
      → Option Text
      → Option (S → S)
      → World Value S
      → World Value S × Subscribed Value
  unfolding subscribe uncached empty supports
  start_lookup none i key cut w = (w, answered (uncached (empty disabled)))
  start_lookup (some a) i key cut w =
      if supports a i.input.kind
      then subscribe a.id i key cut w
      else (w, answered (uncached (empty unsupported)))

  -- the waiting
  unfoldable pub receive : Bool → Received Value → LookupResult Value
  unfolding failure
  receive joined (value r) = if joined then record r { cache_hit = false } else r
  receive joined closed = failure internal_error
  receive joined late = failure request_deadline_exceeded
