-- ===== src/Lib.antt =====
-- A model of rustEnrich, a service that looks indicators of compromise up at AbuseIPDB and VirusTotal.
--
-- A client posts a batch of indicators (src/http.rs), which src/domain.rs reads and validates.
-- src/enrichment.rs answers each lookup from the cache of src/storage.rs or asks the provider
-- (src/providers.rs), after src/storage.rs has reserved a request of the provider's quota, and hands
-- the quota headers of the response back to src/storage.rs.
--
-- Domain models src/domain.rs:
--   Types, ProviderName, KindName, Errors and Outcome are the enumerations with their names and messages;
--   Indicator is `validate_indicator` with `validate_url`; Request is the JSON tree, `deserialize` with its
--   refusal of a repeated key, and the list of details; Item is `validate_item`; Validate is
--   `validate_request`. `&mut Vec<ValidationDetail>` is a list that each helper takes and returns.
--   Details, ItemLaws, RequestLaws, ProviderOrder and Accepted hold the proofs.
--   A text is a list of scalar values; the crates serde_json and url and the parser of IP addresses are
--   arguments of the definitions.
-- Storage models the quota in src/storage.rs:
--   Quota is `QuotaState` with its methods, `quota_decision` and the helpers at the end of the file;
--   Service is `reserve`, `retry_after`, `feedback`, `clear_pending` and `bounded`, and Service/Run has
--   `initialize` and histories of calls. Quota/Merge, Quota/Decision, Quota/Window and the other
--   modules under Service hold the proofs.
--   The tables are a record: a row and a list of attempts for each group, and the saved high-water mark.
--   The mutex `gate` lets one transaction run at a time, so a call is one step on the storage; what other
--   tasks may do during it, which is to retain feedback, is the list `arrived` of the call's `Turn`, as are
--   its clock reading and how its transaction ends (`Fate`): in time, behind or past its deadline,
--   with an error, or cut off while SQLite commits. An `i64` of milliseconds is its distance
--   from `i64::MIN` (Common/Clock), so that saturation below is subtraction on the natural numbers.
--   chrono is an argument, with what it documents as the hypothesis `IsChrono`.
--   Cache is `ttl`, `delete_expired`, `evict` and the transactions of `cache_get`, `cache_put` and
--   `cleanup` on the list of rows in the order of the index `cache_fifo`; `evict` has fuel for one
--   round for each row. Cache/Evict and Cache/Entries hold the proofs.
-- Serialization models src/serialization.rs; what serde_json writes is a list of parts.
-- Config models src/config.rs: the record with its `validate`, and Load is `from_map` with the readers of its settings. A
--   duration is a number of nanoseconds.
-- Providers models src/providers.rs: Adapter is `Adapter` with `request` and `cache_options`, Abuseipdb and
--   Virustotal are `decode_abuseipdb` and `decode_virustotal`, Decode is `Adapter::decode`. Identity and Answers
--   hold the proofs. The record `Codec` holds what the code uses of serde_json, chrono and the parser of addresses.
-- Enrichment models src/enrichment.rs:
--   Feedback is `feedback_from_headers` and `parse_retry_after`; Transport is the classification of reqwest's
--   errors and the collection of a body, a list of chunks; Send, Fetch and Perform are `send`, `fetch` and
--   `perform`. What the network, the runtime and the clock decide of them are the records `Exchange`, `Round`
--   and `Course`; a call that a deadline cuts off leaves the storage in any state that the record names.
--   Store is the interface to the storage, which `quota_store` fills with the methods of Storage/Service.
--   Flights is the table of flights: `register` is the part of `subscribe` under the lock and `complete` the end of a
--   task, and `Step` is the step relation of the two and the cancellation. Flights/Spec has the specification. Caller is `lookup` and
--   `subscribe`, from the caller's side, and Shutdown is `drain`.
-- Http models src/http.rs: Headers is `authorized` and `supported_media_type`, Pairs the deduplication of the pairs in
--   `enrich_admitted` and the order of their results, Project is `project`, Respond is `error_response` and
--   the functions it uses, Handle is `handle` with `health`, `enrich`, `enrich_admitted` and `attach_permit`. A
--   semaphore is the number of its free permits; the events of a body and what the service and the clock decide
--   of a request are the records `Request` and `Turn`; the lookups are a function of their pair. What tracing
--   writes is left out everywhere.
-- Common holds the shared tests, lists, results, texts and clock.
--
-- Fuel: the printing of an index has the twenty digits of a 64-bit number, `evict` has a round for
-- each row and one more, and `fetch` has the two rounds of its loop. Not modelled: src/server.rs,
-- src/main.rs and src/clock.rs, which are sockets, signals and the system's clock; the opening, the schema and the
-- health of the database in src/storage.rs, which are calls of SQLite; what tracing writes.
mod Common
pub mod Domain
pub mod Storage
pub mod Serialization
pub mod Config
pub mod Providers
pub mod Enrichment
pub mod Http
