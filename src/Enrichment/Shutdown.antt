-- ===== src/Enrichment/Shutdown.antt =====
-- `enabled` and `drain` of src/enrichment.rs. The tasks that are cut off end with a timeout.
use rust_enrich.Common.{
  ℕ, ◌≡◌, Bool, true, false, Option, List, [], ◌∷◌, all, keep, is_some, if◌then◌else◌,
}
use rust_enrich.Domain.Types.{ProviderId, abuseipdb, virustotal}
use rust_enrich.Domain.Errors.{provider_timeout}
use rust_enrich.Providers.Adapter.{Adapter}
use rust_enrich.Enrichment.Lookup.{failure}
use rust_enrich.Enrichment.Flights.{Service, cancel, Reachable, cancels, cancellation, next}
use rust_enrich.Enrichment.Flights.Drain.{finish, is_answered, finish-Answered}

-- `providers` is the map of the adapters.
unfoldable pub enabled : (ProviderId → Option Adapter) → List ProviderId
enabled providers = keep (λ id. is_some (providers id)) (abuseipdb ∷ virustotal ∷ [])

module _ {Value : Type 0} where
  -- what waiting for the tasks behind the cancellation comes to
  abbrev cut_off : Service Value → Service Value
  cut_off s = finish (λ c. failure provider_timeout) s.tasks s

  -- `ended` says whether no task is left at the deadline; the state is that of the deadline.
  unfoldable pub drain : Bool → Service Value → Service Value
  unfolding cancel finish failure
  drain ended s = if ended then s else cut_off (cancel s)

  -- From every state that the service reaches, a drain whose deadline passes leaves no flight, and everyone who waits then
  -- has an answer.
  pub drain-Answered :
      (n : ℕ) (s : Service Value)
      → Reachable n s
      → ((drain false s).flights ≡ []) × (all (is_answered (drain false s)) s.callers ≡ true)
  unfolding drain
  drain-Answered n s h =
      let r =
        finish-Answered n (λ c. failure provider_timeout) (cancel s)
          (next cancels s (cancel s) h (cancellation s)) in
      (r.1, r.2)
