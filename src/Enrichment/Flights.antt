-- ===== src/Enrichment/Flights.antt =====
-- The shared flights of src/enrichment.rs: the table of `Enrichment`, the registration in `subscribe`, which holds the
-- lock throughout, and the end of its task. A channel is a number; `channels` holds what was published on it.
pub mod Keys
pub mod Invariant
pub mod Spec
pub mod Drain
use rust_enrich.Common.{
  ℕ, suc, Bool, true, false, not, ◌&&◌, ◌||◌, Option, none, some, List, [], ◌∷◌, ◌==◌, ◌≡◌, leb,
  if◌then◌else◌, length, keep, any,
}
use rust_enrich.Common.Text.{Text, text_eq}
use rust_enrich.Domain.Types.{ProviderId, abuseipdb, virustotal}
use rust_enrich.Domain.Errors.{ErrorCode, provider_busy, service_unavailable}
use rust_enrich.Enrichment.Lookup.{LookupResult}

abbrev pub FlightKey : Type 0
FlightKey = ProviderId × Text

abbrev same_provider : ProviderId → ProviderId → Bool
same_provider abuseipdb abuseipdb = true
same_provider virustotal virustotal = true
same_provider _ _ = false

unfoldable pub key_eq : FlightKey → FlightKey → Bool
key_eq (p, s) (q, t) = same_provider p q && text_eq s t

-- The key of a flight and its channel.
abbrev pub Flight : Type 0
Flight = FlightKey × ℕ

-- `tasks` are the tasks that run, and `callers` the receivers that were handed out, each with its key.
pub record Service (Value : Type 0) : Type 0 where
  pub max_shared_lookups : ℕ
  pub cancelled : Bool
  pub flights : List Flight
  pub tasks : List Flight
  pub created : ℕ
  pub channels : ℕ → Option (LookupResult Value)
  pub callers : List Flight

-- What a caller is told: an error, or the channel to wait on, and whether it joined a flight.
pub data Reply : Type 0 where
  refused : ErrorCode → Reply
  receives : ℕ → Bool → Reply

-- `flights.get(&flight_key)`
unfoldable pub flight_of : FlightKey → List Flight → Option ℕ
unfolding key_eq
flight_of k [] = none
flight_of k ((l, c) ∷ flights) =
    let rest = flight_of k flights in if key_eq k l then some c else rest

unfoldable pub is_flight : FlightKey → ℕ → List Flight → Bool
unfolding key_eq
is_flight k c flights = any (λ f. key_eq k f.0 && f.1 == c) flights

module _ {Value : Type 0} where
  abbrev pub set_channel :
      ℕ
      → Option (LookupResult Value)
      → (ℕ → Option (LookupResult Value))
      → ℕ
      → Option (LookupResult Value)
  set_channel c value channels d = if d == c then value else channels d

  abbrev pub start : FlightKey → Service Value → Service Value
  start k s = record s {
    flights = (k, s.created) ∷ s.flights;
    tasks = (k, s.created) ∷ s.tasks;
    created = suc s.created;
    channels = set_channel s.created none s.channels;
    callers = (k, s.created) ∷ s.callers;
  }

  unfoldable pub register_at : FlightKey → Option ℕ → Service Value → Service Value × Reply
  register_at k (some c) s = (record s { callers = (k, c) ∷ s.callers }, receives c true)
  register_at k none s =
      if leb s.max_shared_lookups (length s.flights)
      then (s, refused provider_busy)
      else if s.cancelled
      then (s, refused service_unavailable)
      else (start k s, receives s.created false)

  -- the part of `subscribe` under the lock
  unfoldable pub register : FlightKey → Service Value → Service Value × Reply
  unfolding flight_of register_at
  register k s = register_at k (flight_of k s.flights) s

  -- the end of the task of a flight, under the lock
  unfoldable pub complete : FlightKey → ℕ → LookupResult Value → Service Value → Service Value
  unfolding key_eq
  complete k c r s = record s {
    channels = set_channel c (some r) s.channels;
    flights = keep (λ f. not (key_eq k f.0)) s.flights;
    tasks = keep (λ f. not (f.1 == c)) s.tasks;
  }

  unfoldable pub cancel : Service Value → Service Value
  cancel s = record s { cancelled = true }

  unfoldable pub empty_service : ℕ → Service Value
  empty_service n = record {
    max_shared_lookups = n;
    cancelled = false;
    flights = [];
    tasks = [];
    created = 0;
    channels = λ c. none;
    callers = [];
  }

-- What happens to the service from outside.
pub data Event (Value : Type 0) : Type 0 where
  arrives : FlightKey → Event Value
  completes : FlightKey → LookupResult Value → Event Value
  cancels : Event Value

pub data Step {Value : Type 0} : Event Value → Service Value → Service Value → Type 0 where
  arrival : (k : FlightKey) (s : Service Value) → Step (arrives k) s (register k s).0
  completion :
      (k : FlightKey) (c : ℕ) (r : LookupResult Value) (s : Service Value)
      → is_flight k c s.tasks ≡ true
      → Step (completes k r) s (complete k c r s)
  cancellation : (s : Service Value) → Step cancels s (cancel s)

-- The states that steps reach from the new service.
pub data Reachable {Value : Type 0} (n : ℕ) : Service Value → Type 0 where
  initial : Reachable n (empty_service n)
  next : (e : Event Value) (s s' : Service Value) → Reachable n s → Step e s s' → Reachable n s'
