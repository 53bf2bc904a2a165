-- ===== src/Config.antt =====
-- `Config`, `ProviderConfig` and `Config::validate` of src/config.rs. A duration is a number of nanoseconds.
-- What tokio, http, chrono and the system's clock decide is a parameter.
pub mod Order
pub mod Load
pub mod Example
mod Tests
use rust_enrich.Common.{
  ℕ, ◌+◌, ◌^◌, Bool, true, false, not, ◌&&◌, ◌||◌, Option, none, some, String, List, [], ◌∷◌,
  Result, ok, err, ensure, ◌-◌, ◌>>=◌, ◌>>◌, ltb, leb, ◌==◌, is_none, any, length,
}
use rust_enrich.Common.Text.{Text, codes, bytes, text_eq}

abbrev pub Duration : Type 0
Duration = ℕ

pub record ProviderConfig : Type 0 where
  pub enabled : Bool
  pub api_key : Option Text
  pub max_concurrency : ℕ
  pub requests_per_minute : ℕ
  pub requests_per_day : ℕ

-- The fields that `validate` reads.
pub record Config : Type 0 where
  pub service_token : Text
  pub database_path : Text
  pub max_batch_size : ℕ
  pub max_request_bytes : ℕ
  pub max_concurrent_requests : ℕ
  pub max_shared_lookups : ℕ
  pub max_outbound_requests : ℕ
  pub request_timeout : Duration
  pub lookup_timeout : Duration
  pub provider_timeout : Duration
  pub connect_timeout : Duration
  pub response_write_timeout : Duration
  pub storage_timeout : Duration
  pub shutdown_grace : Duration
  pub max_provider_bytes : ℕ
  pub max_raw_response_bytes : ℕ
  pub cache_max_entries : ℕ
  pub cache_max_bytes : ℕ
  pub cache_ip_ttl : Duration
  pub cache_url_ttl : Duration
  pub cache_hash_ttl : Duration
  pub cache_not_found_ttl : Duration
  pub log_level : Text
  pub abuseipdb : ProviderConfig
  pub virustotal : ProviderConfig
  pub abuseipdb_max_age_days : ℕ

pub record ConfigError : Type 0 where
  pub setting : String
  pub message : String

-- `HeaderValue::from_str`, `Semaphore::MAX_PERMITS`, `Instant::now().checked_add` and
-- `Utc::now().checked_add_signed`
pub record Platform : Type 0 where
  pub is_header_value : Text → Bool
  pub max_permits : ℕ
  pub is_deadline : Duration → Bool
  pub is_ttl : Duration → Bool

abbrev pub Check : Type 0
Check = Result {0} ConfigError Unit

-- an error unless the test passes
unfoldable pub demand : Bool → String → String → Check
demand test setting message = ensure test (record { setting = setting; message = message })

unfoldable pub validate_secret : Platform → Text → String → Check
unfolding demand
validate_secret m value setting =
    demand
      (not (
        text_eq value []
        || any (λ c. c == 0x0d || c == 0x0a) value
        || not (m.is_header_value value)))
      setting "secret must be nonempty and valid in an HTTP header without line breaks"

-- The same test of several settings, in order.
unfoldable pub demand_all : (ℕ → Bool) → String → List (String × ℕ) → Check
unfolding demand
demand_all test message [] = ok tt
demand_all test message ((setting, value) ∷ rest) =
    demand (test value) setting message >> demand_all test message rest

unfoldable pub check_capacities : Platform → Config → Check
unfolding demand demand_all
check_capacities m c = do
  demand_all (λ n. not (n == 0)) "must be positive"
      (("ENRICH_MAX_REQUEST_BYTES", c.max_request_bytes)
        ∷ ("ENRICH_MAX_CONCURRENT_REQUESTS", c.max_concurrent_requests)
        ∷ ("ENRICH_MAX_SHARED_LOOKUPS", c.max_shared_lookups)
        ∷ ("ENRICH_MAX_OUTBOUND_REQUESTS", c.max_outbound_requests)
        ∷ ("ENRICH_MAX_PROVIDER_BYTES", c.max_provider_bytes)
        ∷ ("ENRICH_MAX_RAW_RESPONSE_BYTES", c.max_raw_response_bytes)
        ∷ ("ENRICH_CACHE_MAX_ENTRIES", c.cache_max_entries)
        ∷ ("ENRICH_CACHE_MAX_BYTES", c.cache_max_bytes)
        ∷ [])
  demand_all (λ n. leb n m.max_permits) "capacity exceeds the semaphore limit"
      (("ENRICH_MAX_CONCURRENT_REQUESTS", c.max_concurrent_requests)
        ∷ ("ENRICH_MAX_SHARED_LOOKUPS", c.max_shared_lookups)
        ∷ ("ENRICH_MAX_OUTBOUND_REQUESTS", c.max_outbound_requests)
        ∷ [])
  demand (ltb (c.max_raw_response_bytes + 1048576) (2 ^ 64)) "ENRICH_MAX_RAW_RESPONSE_BYTES"
      "total response size cannot be represented"

unfoldable pub check_deadlines : Platform → Config → Check
unfolding demand_all
check_deadlines m c =
    demand_all (λ t. not (t == 0) && m.is_deadline t) "must be a positive representable deadline"
      (("ENRICH_REQUEST_TIMEOUT_MS", c.request_timeout)
        ∷ ("ENRICH_LOOKUP_TIMEOUT_MS", c.lookup_timeout)
        ∷ ("ENRICH_PROVIDER_TIMEOUT_MS", c.provider_timeout)
        ∷ ("ENRICH_CONNECT_TIMEOUT_MS", c.connect_timeout)
        ∷ ("ENRICH_RESPONSE_WRITE_TIMEOUT_MS", c.response_write_timeout)
        ∷ ("ENRICH_STORAGE_TIMEOUT_MS", c.storage_timeout)
        ∷ ("ENRICH_SHUTDOWN_GRACE_MS", c.shutdown_grace)
        ∷ [])

unfoldable pub check_order : Config → Check
unfolding demand
check_order c = do
  demand
      (not (
        ltb c.provider_timeout c.connect_timeout
        || ltb c.lookup_timeout c.provider_timeout
        || ltb c.request_timeout c.lookup_timeout))
      "ENRICH_ timeouts" "require connect <= provider <= lookup <= request"
  demand (not (ltb c.lookup_timeout c.storage_timeout)) "ENRICH_STORAGE_TIMEOUT_MS"
      "must not exceed the lookup timeout"

unfoldable pub check_ttls : Platform → Config → Check
unfolding demand_all
check_ttls m c = demand_all m.is_ttl "duration cannot be represented" (
    ("ENRICH_CACHE_IP_TTL_SECONDS", c.cache_ip_ttl)
    ∷ ("ENRICH_CACHE_URL_TTL_SECONDS", c.cache_url_ttl)
    ∷ ("ENRICH_CACHE_HASH_TTL_SECONDS", c.cache_hash_ttl)
    ∷ ("ENRICH_CACHE_NOT_FOUND_TTL_SECONDS", c.cache_not_found_ttl)
    ∷ [])

check_key : Platform → Option Text → String → Check
unfolding validate_secret
check_key m none setting = ok tt
check_key m (some secret) setting = validate_secret m secret setting

unfoldable pub check_provider : Platform → Config → String → ProviderConfig → Check
unfolding demand check_key
check_provider m c setting p = do
  demand (not (p.enabled && is_none p.api_key)) setting "enabled provider requires an API key"
  check_key m p.api_key setting
  demand (not (p.max_concurrency == 0 || ltb c.max_outbound_requests p.max_concurrency)) setting
      "concurrency must be positive and not exceed global outbound capacity"
  demand (not (p.requests_per_day == 0)) setting "daily request budget must be positive"
  demand (leb p.requests_per_day (2 ^ 63 - 1) && leb p.requests_per_minute (2 ^ 63 - 1)) setting
      "quota must fit a signed 64-bit storage counter"

unfoldable pub is_level : Text → Bool
is_level level =
    any (text_eq level)
      (codes "error" ∷ codes "warn" ∷ codes "info" ∷ codes "debug" ∷ codes "trace" ∷ [])

unfoldable pub validate : Platform → Config → Check
unfolding demand
validate m c = do
  validate_secret m c.service_token "ENRICH_SERVICE_TOKEN"
  demand (leb 32 (length (bytes c.service_token))) "ENRICH_SERVICE_TOKEN"
      "requires at least 32 UTF-8 bytes"
  demand (not (text_eq c.database_path [])) "ENRICH_DATABASE_PATH" "must not be empty"
  demand (leb 1 c.max_batch_size && leb c.max_batch_size 20) "ENRICH_MAX_BATCH_SIZE"
      "must be between 1 and 20"
  check_capacities m c
  check_deadlines m c
  check_order c
  check_ttls m c
  demand (is_level c.log_level) "ENRICH_LOG_LEVEL" "expected error, warn, info, debug, or trace"
  demand (c.abuseipdb.enabled || c.virustotal.enabled) "ENRICH_ providers"
      "at least one provider must be enabled"
  check_provider m c "ENRICH_ABUSEIPDB" c.abuseipdb
  check_provider m c "ENRICH_VIRUSTOTAL" c.virustotal
  demand (leb 1 c.abuseipdb_max_age_days && leb c.abuseipdb_max_age_days 365)
      "ENRICH_ABUSEIPDB_MAX_AGE_DAYS" "must be between 1 and 365"
