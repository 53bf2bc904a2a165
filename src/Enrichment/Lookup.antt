-- ===== src/Enrichment/Lookup.antt =====
-- `LookupResult` of src/enrichment.rs.
use rust_enrich.Common.{Bool, false, Option, none}
use rust_enrich.Common.Clock.{DateTime}
use rust_enrich.Domain.Errors.{ErrorCode}
use rust_enrich.Domain.Outcome.{Outcome}
use rust_enrich.Domain.Outcome

pub record LookupResult (Value : Type 0) : Type 0 where
  pub outcome : Outcome Value
  pub cache_hit : Bool
  pub expires_at : Option DateTime

module _ {Value : Type 0} where
  unfoldable pub uncached : Outcome Value → LookupResult Value
  uncached outcome = record { outcome = outcome; cache_hit = false; expires_at = none }

  unfoldable pub failure : ErrorCode → LookupResult Value
  unfolding uncached
  failure code = uncached (Outcome.failure code)
