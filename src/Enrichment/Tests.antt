-- ===== src/Enrichment/Tests.antt =====
-- The theorems on src/enrichment.rs at concrete lookups.
use rust_enrich.Common.{
  is_some, ℕ, suc, ◌+◌, ◌*◌, ◌/◌, ◌-◌, ◌≤◌, ◌≡◌, refl, true, false, none, some, [], ◌∷◌, map, ok,
  is_ok, if◌then◌else◌, leb, all,
}
use rust_enrich.Common.Text.{codes, text_eq}
use rust_enrich.Domain.Types.{abuseipdb, virustotal, success}
use rust_enrich.Domain.Errors.{provider_timeout, response_too_large}
use rust_enrich.Domain.Outcome.{Outcome, Summary}
use rust_enrich.Storage.Example.{chrono, fresh_state}
use rust_enrich.Storage.Quota.{apply_feedback}
use rust_enrich.Providers.Example.{codec, urls, an_address, abuse_data, abuseipdb_adapter}
use rust_enrich.Providers.Adapter.{ProviderRequest, request, request_to}
use rust_enrich.Providers.Abuseipdb.{abuse_summary}
use rust_enrich.Enrichment.Lookup.{failure}
use rust_enrich.Enrichment.Feedback.{
  HeaderTools, Headers, from_secs, parse_retry_after, feedback_from_headers,
}
use rust_enrich.Enrichment.Feedback.Accepted.{feedback_from_headers-Accepted}
use rust_enrich.Enrichment.Feedback.Cooldown.{IsLongEnough, feedback_from_headers-IsLongEnough}
use rust_enrich.Enrichment.Transport.{whole, failed, collect}
use rust_enrich.Enrichment.Transport.Bound.{collect_lem}
use rust_enrich.Enrichment.Store.{Store}
use rust_enrich.Enrichment.Send.{Tools, Exchange, send}
use rust_enrich.Enrichment.Send.Raw.{IsSendable, send-IsSendable}
use rust_enrich.Enrichment.Send.Limited.{answer_429, IsLimited, send-Limited}
use rust_enrich.Enrichment.Fetch.{Round, fetch, attempt}
use rust_enrich.Enrichment.Fetch.Loop.{fetch-bounds}
use rust_enrich.Enrichment.Fetch.Retries.{IsRepeatable, fetch-IsRepeatable}
use rust_enrich.Enrichment.Perform.{Course, perform}
use rust_enrich.Enrichment.Perform.Keeps.{IsAnswer, perform-IsAnswer}
use rust_enrich.Enrichment.Flights.{
  FlightKey, Service, Event, arrives, completes, Step, arrival, completion, Reachable, initial,
  next, empty_service, register, complete,
}
use rust_enrich.Enrichment.Caller.{World, start_lookup}
use rust_enrich.Enrichment.Caller.Told.{start_lookup-told}
use rust_enrich.Enrichment.Flights.Invariant.{IsSound, Reachable-IsSound}
use rust_enrich.Enrichment.Flights.Drain.{finish, is_answered, finish-Answered}
use rust_enrich.Enrichment.Flights.Spec.{spec, view, step-view}

abbrev header_tools : HeaderTools
header_tools = record {
  parse_http_date = λ text. none;
  millis_until = λ until now. until - now;
  checked_add = λ now duration. some (now + duration / 1000000);
  from_timestamp = λ seconds. some (seconds * 1000);
}

-- A response with nothing left and a delay of two seconds.
abbrev headers : Headers
headers name =
    if text_eq name (codes "x-ratelimit-remaining")
    then some (codes "0")
    else if text_eq name (codes "retry-after")
    then some (codes "2")
    else none

feedback_from_headers-Accepted_example :
    is_ok (
      apply_feedback chrono
        (feedback_from_headers header_tools abuseipdb 429 headers 1000)
        1000
        0
        fresh_state)
    ≡ true
feedback_from_headers-Accepted_example =
    feedback_from_headers-Accepted header_tools chrono abuseipdb 429 headers 1000 1000 0 fresh_state

feedback_from_headers-IsLongEnough_example :
    IsLongEnough header_tools 429 1000
      (parse_retry_after header_tools (headers (codes "retry-after")) 1000)
      (feedback_from_headers header_tools abuseipdb 429 headers 1000)
feedback_from_headers-IsLongEnough_example =
    feedback_from_headers-IsLongEnough header_tools abuseipdb 429 headers 1000

collect_lem_example :
    collect 3 (map (λ p. ok p) (codes "ab" ∷ codes "cd" ∷ [])) []
    ≡ (if leb 4 3 then whole (codes "abcd") else failed response_too_large)
collect_lem_example = collect_lem 3 (codes "ab" ∷ codes "cd" ∷ [])

-- A storage that grants what is asked, and counts the calls.
abbrev granting : Store ℕ ℕ
granting = record {
  reserve = λ id s. (suc s, ok tt);
  feedback = λ id f s. (suc s, ok tt);
  retry_after = λ id s. (suc s, ok (some 2));
  cache_get = λ id key kind s. (suc s, ok none);
  cache_put = λ id key version kind outcome s. (suc s, ok (some 9));
}

abbrev tools : Tools ℕ ℕ
tools = record {
  codec = codec;
  urls = urls;
  headers = header_tools;
  store = granting;
  max_provider_bytes = 100;
}

abbrev answers : ℕ → Exchange
answers status = record {
  answer = ok (record { status = status; headers = λ name. none; chunks = ok (codes "{}") ∷ [] });
  now = 1000;
  decoded_at = 1001;
  fetched_at = 1002;
}

abbrev reported : Outcome ℕ
reported = record {
  status = success;
  summary = some (Summary.abuseipdb (abuse_summary codec abuse_data none));
  fetched_at = some 1002;
  provider_updated_at = none;
  error = none;
  raw = some 0;
}

abbrev the_request : ProviderRequest
the_request = request_to urls abuseipdb_adapter abuseipdb an_address

send-Limited_example :
    IsLimited tools abuseipdb_adapter
      (feedback_from_headers header_tools abuseipdb 429 headers 1000)
      (parse_retry_after header_tools (headers (codes "retry-after")) 1000)
      1000
      1
      (send tools abuseipdb_adapter an_address
        (answer_429 tools headers (ok (codes "{}") ∷ []) 1000 1001 1002)
        0)
unfolding request collect
send-Limited_example =
    send-Limited tools abuseipdb_adapter an_address headers (ok (codes "{}") ∷ []) 1000 1001 1002 0
      the_request (codes "{}") refl refl refl

send-IsSendable_example : IsSendable tools reported
unfolding send rust_enrich.Serialization.write
send-IsSendable_example =
    send-IsSendable tools abuseipdb_adapter an_address (answers 200) 0
      (record { outcome = reported; retry = false; retry_after = none }) refl

-- Attempts that are answered with status 503 after a second each.
abbrev rounds : ℕ → Round ℕ
rounds number = record {
  provider_open = true;
  global_open = true;
  reserved_at = from_secs number;
  exchange = answers 503;
  sent_at = from_secs number;
  answered_at = some (from_secs (number + 1));
  cut = λ s. s;
  decided_at = from_secs (number + 1);
}

fetch-bounds_example :
    ((fetch tools (from_secs 5) abuseipdb_adapter an_address (from_secs 20) rounds 0).sends
      ≤ (fetch tools (from_secs 5) abuseipdb_adapter an_address (from_secs 20) rounds 0).grants)
    × ((fetch tools (from_secs 5) abuseipdb_adapter an_address (from_secs 20) rounds 0).grants ≤ 2)
fetch-bounds_example =
    fetch-bounds tools (from_secs 5) abuseipdb_adapter an_address (from_secs 20) rounds 0

fetch-IsRepeatable_example :
    IsRepeatable tools
      (from_secs 5)
      (from_secs 20)
      (from_secs 1)
      (fetch tools (from_secs 5) abuseipdb_adapter an_address (from_secs 20) rounds 0).slept
      (attempt tools (from_secs 5) abuseipdb_adapter an_address (from_secs 20) (rounds 0) 0).result
unfolding fetch rust_enrich.Domain.Outcome.failure
fetch-IsRepeatable_example =
    fetch-IsRepeatable tools (from_secs 5) abuseipdb_adapter an_address (from_secs 20) rounds 0 refl

abbrev course : Course ℕ
course = record {
  rounds = rounds;
  fetch_in_time = true;
  cut = λ s. s;
  put_in_time = false;
  put_cut = λ s. s;
}

perform-IsAnswer_example :
    IsAnswer tools
      (from_secs 5)
      abuseipdb_adapter
      (codes "k")
      an_address
      (from_secs 20)
      course
      1
      (ok none)
      (perform tools (from_secs 5) abuseipdb_adapter (codes "k") an_address (from_secs 20) course 0)
perform-IsAnswer_example =
    perform-IsAnswer tools (from_secs 5) abuseipdb_adapter (codes "k") an_address (from_secs 20)
      course 0

-- A key that two callers ask for.
abbrev the_key : FlightKey
the_key = (virustotal, codes "k")

abbrev asked : Service ℕ
asked = (register the_key (empty_service 1)).0

abbrev asked_twice : Service ℕ
asked_twice = (register the_key asked).0

asked_twice-Reachable : Reachable 1 asked_twice
asked_twice-Reachable =
    next (arrives the_key) asked asked_twice
      (next (arrives the_key) (empty_service 1) asked initial (arrival the_key (empty_service 1)))
      (arrival the_key asked)

Reachable-IsSound_example : IsSound asked_twice
Reachable-IsSound_example = Reachable-IsSound 1 asked_twice asked_twice-Reachable

finish-Answered_example :
    Reachable 1 (finish (λ c. failure provider_timeout) asked_twice.tasks asked_twice)
    × ((finish (λ c. failure provider_timeout) asked_twice.tasks asked_twice).flights ≡ [])
    × (all
          (is_answered (finish (λ c. failure provider_timeout) asked_twice.tasks asked_twice))
          asked_twice.callers
        ≡ true)
finish-Answered_example =
    finish-Answered 1 (λ c. failure provider_timeout) asked_twice asked_twice-Reachable

step-view_example :
    view (complete the_key 0 (failure provider_timeout) asked_twice)
    ≡ spec (completes the_key (failure provider_timeout)) (view asked_twice)
unfolding rust_enrich.Enrichment.Flights.is_flight register empty_service
step-view_example =
    step-view 1 (completes the_key (failure provider_timeout)) asked_twice
      (complete the_key 0 (failure provider_timeout) asked_twice) asked_twice-Reachable
      (completion the_key 0 (failure provider_timeout) asked_twice refl)

-- The cache holds nothing, so the lookup starts a flight.
abbrev asked_at_once : World ℕ ℕ
asked_at_once = record {
  store = 1;
  service = (register (abuseipdb, codes "k") (empty_service 1)).0;
}

-- Its task has ended with a timeout.
abbrev told_state : Service ℕ
told_state =
    finish (λ c. failure provider_timeout) asked_at_once.service.tasks asked_at_once.service

start_lookup-told_example : is_some (told_state.channels 0) ≡ true
unfolding start_lookup register empty_service
start_lookup-told_example =
    start_lookup-told granting 1 (λ c. failure provider_timeout) (some abuseipdb_adapter) an_address
      (some (codes "k")) none (record { store = 0; service = empty_service 1 }) asked_at_once 0
      false initial refl
