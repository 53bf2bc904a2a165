-- ===== src/Config/Load.antt =====
-- `from_map` of src/config.rs with the readers of its settings. The map is a list of settings with distinct names; the
-- reading of a file and the parser of socket addresses are a parameter.
pub mod Checked
use rust_enrich.Common.{
  ℕ, ◌*◌, ◌-◌, ◌^◌, Bool, true, false, not, ◌&&◌, ◌||◌, Option, none, some, String, List, [], ◌∷◌,
  ◌++◌, Result, ok, err, ok_or, ensure, ◌>>=◌, ◌>>◌, ◌==◌, if◌then◌else◌, any, all, is_some,
}
use rust_enrich.Common.Text.{Text, codes, text_eq}
use rust_enrich.Common.Digits.{is_digits, parse_unsigned}
use rust_enrich.Config.{
  Config, ProviderConfig, ConfigError, Platform, Duration, validate_secret, validate,
}

abbrev pub Values : Type 0
Values = List (Text × Text)

-- `read_to_string`, and `parse` into a `SocketAddr`, which stays a text
pub record Reader : Type 0 where
  pub read_to_string : Text → Option Text
  pub parse_addr : Text → Option Text

-- A configuration with its address.
pub record Loaded : Type 0 where
  pub bind_addr : Text
  pub config : Config

abbrev Read : Type 0 → Type 0
Read A = Result {0} ConfigError A

abbrev fault : String → String → ConfigError
fault setting message = record { setting = setting; message = message }

unfoldable pub settings : List String
settings =
    "ENRICH_BIND_ADDR" ∷ "ENRICH_SERVICE_TOKEN" ∷ "ENRICH_SERVICE_TOKEN_FILE"
    ∷ "ENRICH_DATABASE_PATH" ∷ "ENRICH_MAX_BATCH_SIZE" ∷ "ENRICH_MAX_REQUEST_BYTES"
    ∷ "ENRICH_MAX_CONCURRENT_REQUESTS" ∷ "ENRICH_MAX_SHARED_LOOKUPS"
    ∷ "ENRICH_MAX_OUTBOUND_REQUESTS" ∷ "ENRICH_REQUEST_TIMEOUT_MS" ∷ "ENRICH_LOOKUP_TIMEOUT_MS"
    ∷ "ENRICH_PROVIDER_TIMEOUT_MS" ∷ "ENRICH_CONNECT_TIMEOUT_MS"
    ∷ "ENRICH_RESPONSE_WRITE_TIMEOUT_MS" ∷ "ENRICH_STORAGE_TIMEOUT_MS" ∷ "ENRICH_SHUTDOWN_GRACE_MS"
    ∷ "ENRICH_MAX_PROVIDER_BYTES" ∷ "ENRICH_MAX_RAW_RESPONSE_BYTES" ∷ "ENRICH_CACHE_MAX_ENTRIES"
    ∷ "ENRICH_CACHE_MAX_BYTES" ∷ "ENRICH_CACHE_IP_TTL_SECONDS" ∷ "ENRICH_CACHE_URL_TTL_SECONDS"
    ∷ "ENRICH_CACHE_HASH_TTL_SECONDS" ∷ "ENRICH_CACHE_NOT_FOUND_TTL_SECONDS" ∷ "ENRICH_LOG_LEVEL"
    ∷ "ENRICH_ABUSEIPDB_ENABLED" ∷ "ENRICH_ABUSEIPDB_API_KEY" ∷ "ENRICH_ABUSEIPDB_API_KEY_FILE"
    ∷ "ENRICH_ABUSEIPDB_MAX_CONCURRENCY" ∷ "ENRICH_ABUSEIPDB_REQUESTS_PER_MINUTE"
    ∷ "ENRICH_ABUSEIPDB_REQUESTS_PER_DAY" ∷ "ENRICH_ABUSEIPDB_MAX_AGE_DAYS"
    ∷ "ENRICH_VIRUSTOTAL_ENABLED" ∷ "ENRICH_VIRUSTOTAL_API_KEY" ∷ "ENRICH_VIRUSTOTAL_API_KEY_FILE"
    ∷ "ENRICH_VIRUSTOTAL_MAX_CONCURRENCY" ∷ "ENRICH_VIRUSTOTAL_REQUESTS_PER_MINUTE"
    ∷ "ENRICH_VIRUSTOTAL_REQUESTS_PER_DAY" ∷ []

abbrev get : Values → Text → Option Text
get [] name = none
get ((key, value) ∷ values) name =
    let rest = get values name in if text_eq key name then some value else rest

abbrev starts_with : Text → Text → Bool
starts_with [] name = true
starts_with (c ∷ p) [] = false
starts_with (c ∷ p) (d ∷ name) = c == d && starts_with p name

-- a name of the service that is not among the settings
unfoldable pub is_unknown : Text × Text → Bool
unfolding settings
is_unknown (name, value) =
    starts_with (codes "ENRICH_") name && not (any (λ s. text_eq (codes s) name) settings)

unfoldable pub value_or : Values → String → String → Text
value_or values setting default = or_default (get values (codes setting))
  where
    or_default : Option Text → Text
    or_default none = codes default
    or_default (some value) = value

-- `number` of an unsigned type with this greatest value
unfoldable pub number : ℕ → Values → String → ℕ → Read ℕ
number greatest values setting default = parsed (get values (codes setting))
  where
    parsed : Option Text → Read ℕ
    parsed none = ok default
    parsed (some value) =
        if is_digits value
        then ok_or (parse_unsigned greatest value) (fault setting "integer is out of range")
        else err (fault setting "expected an unsigned decimal integer")

-- `usize` and `u64`, and `u16`
abbrev word : Values → String → ℕ → Read ℕ
word = number (2 ^ 64 - 1)

abbrev days : Values → String → ℕ → Read ℕ
days = number (2 ^ 16 - 1)

unfoldable pub boolean : Values → String → Read Bool
boolean values setting = read (get values (codes setting))
  where
    read : Option Text → Read Bool
    read none = ok false
    read (some value) =
        if text_eq value (codes "false")
        then ok false
        else if text_eq value (codes "true")
        then ok true
        else err (fault setting "expected true or false")

unfoldable pub milliseconds : Values → String → ℕ → Read Duration
unfolding number
milliseconds values setting default = do n ← word values setting default; ok (n * 1000000)

unfoldable pub seconds : Values → String → ℕ → Read Duration
unfolding number
seconds values setting default = do n ← word values setting default; ok (n * 1000000000)

-- the text without one line break at its end
unfoldable pub strip_line : Text → Text
strip_line [] = []
strip_line (c ∷ s) = let rest = strip_line s in shorten c s rest
  where
    shorten : ℕ → Text → Text → Text
    shorten c [] rest = if c == 0x0a || c == 0x0d then [] else c ∷ []
    shorten c (d ∷ []) rest = if c == 0x0d && d == 0x0a then [] else c ∷ rest
    shorten c (d ∷ e ∷ s) rest = c ∷ rest

module _ (m : Platform) (f : Reader) where
  abbrev checked_secret : String → Text → Read (Option Text)
  checked_secret setting secret = do validate_secret m secret setting; ok (some secret)

  unfoldable pub read_secret : Values → String → String → Read (Option Text)
  unfolding strip_line validate_secret
  read_secret values value_setting file_setting =
      choose (get values (codes value_setting)) (get values (codes file_setting))
    where
      choose : Option Text → Option Text → Read (Option Text)
      choose (some value) (some path) =
          err (fault value_setting "choose the value or its _FILE setting, never both")
      choose (some value) none = checked_secret value_setting value
      choose none (some path) = do
        text ←
            ok_or (f.read_to_string path) (fault file_setting "secret file must be readable UTF-8")
        checked_secret value_setting (strip_line text)
      choose none none = ok none

  -- the construction of the record, in the order of its fields
  unfoldable pub read_config : Values → Read Loaded
  unfolding read_secret value_or milliseconds seconds boolean number
  read_config v = do
    secret ← read_secret v "ENRICH_SERVICE_TOKEN" "ENRICH_SERVICE_TOKEN_FILE"
    token ← ok_or secret (fault "ENRICH_SERVICE_TOKEN" "secret is required")
    bind_addr ←
        ok_or (f.parse_addr (value_or v "ENRICH_BIND_ADDR" "127.0.0.1:8080"))
          (fault "ENRICH_BIND_ADDR" "expected an IP socket address")
    max_batch_size ← word v "ENRICH_MAX_BATCH_SIZE" 20
    max_request_bytes ← word v "ENRICH_MAX_REQUEST_BYTES" 131072
    max_concurrent_requests ← word v "ENRICH_MAX_CONCURRENT_REQUESTS" 32
    max_shared_lookups ← word v "ENRICH_MAX_SHARED_LOOKUPS" 64
    max_outbound_requests ← word v "ENRICH_MAX_OUTBOUND_REQUESTS" 16
    request_timeout ← milliseconds v "ENRICH_REQUEST_TIMEOUT_MS" 15000
    lookup_timeout ← milliseconds v "ENRICH_LOOKUP_TIMEOUT_MS" 12000
    provider_timeout ← milliseconds v "ENRICH_PROVIDER_TIMEOUT_MS" 5000
    connect_timeout ← milliseconds v "ENRICH_CONNECT_TIMEOUT_MS" 2000
    response_write_timeout ← milliseconds v "ENRICH_RESPONSE_WRITE_TIMEOUT_MS" 5000
    storage_timeout ← milliseconds v "ENRICH_STORAGE_TIMEOUT_MS" 1000
    shutdown_grace ← milliseconds v "ENRICH_SHUTDOWN_GRACE_MS" 20000
    max_provider_bytes ← word v "ENRICH_MAX_PROVIDER_BYTES" 1048576
    max_raw_response_bytes ← word v "ENRICH_MAX_RAW_RESPONSE_BYTES" 8388608
    cache_max_entries ← word v "ENRICH_CACHE_MAX_ENTRIES" 10000
    cache_max_bytes ← word v "ENRICH_CACHE_MAX_BYTES" 134217728
    cache_ip_ttl ← seconds v "ENRICH_CACHE_IP_TTL_SECONDS" 3600
    cache_url_ttl ← seconds v "ENRICH_CACHE_URL_TTL_SECONDS" 3600
    cache_hash_ttl ← seconds v "ENRICH_CACHE_HASH_TTL_SECONDS" 86400
    cache_not_found_ttl ← seconds v "ENRICH_CACHE_NOT_FOUND_TTL_SECONDS" 300
    abuseipdb_enabled ← boolean v "ENRICH_ABUSEIPDB_ENABLED"
    abuseipdb_key ← read_secret v "ENRICH_ABUSEIPDB_API_KEY" "ENRICH_ABUSEIPDB_API_KEY_FILE"
    abuseipdb_concurrency ← word v "ENRICH_ABUSEIPDB_MAX_CONCURRENCY" 4
    abuseipdb_minute ← word v "ENRICH_ABUSEIPDB_REQUESTS_PER_MINUTE" 0
    abuseipdb_day ← word v "ENRICH_ABUSEIPDB_REQUESTS_PER_DAY" 1000
    virustotal_enabled ← boolean v "ENRICH_VIRUSTOTAL_ENABLED"
    virustotal_key ← read_secret v "ENRICH_VIRUSTOTAL_API_KEY" "ENRICH_VIRUSTOTAL_API_KEY_FILE"
    virustotal_concurrency ← word v "ENRICH_VIRUSTOTAL_MAX_CONCURRENCY" 4
    virustotal_minute ← word v "ENRICH_VIRUSTOTAL_REQUESTS_PER_MINUTE" 4
    virustotal_day ← word v "ENRICH_VIRUSTOTAL_REQUESTS_PER_DAY" 500
    max_age ← days v "ENRICH_ABUSEIPDB_MAX_AGE_DAYS" 30
    ok (record {
      bind_addr = bind_addr;
      config = record {
        service_token = token;
        database_path = value_or v "ENRICH_DATABASE_PATH" "./data/rustenrich.sqlite";
        max_batch_size = max_batch_size;
        max_request_bytes = max_request_bytes;
        max_concurrent_requests = max_concurrent_requests;
        max_shared_lookups = max_shared_lookups;
        max_outbound_requests = max_outbound_requests;
        request_timeout = request_timeout;
        lookup_timeout = lookup_timeout;
        provider_timeout = provider_timeout;
        connect_timeout = connect_timeout;
        response_write_timeout = response_write_timeout;
        storage_timeout = storage_timeout;
        shutdown_grace = shutdown_grace;
        max_provider_bytes = max_provider_bytes;
        max_raw_response_bytes = max_raw_response_bytes;
        cache_max_entries = cache_max_entries;
        cache_max_bytes = cache_max_bytes;
        cache_ip_ttl = cache_ip_ttl;
        cache_url_ttl = cache_url_ttl;
        cache_hash_ttl = cache_hash_ttl;
        cache_not_found_ttl = cache_not_found_ttl;
        log_level = value_or v "ENRICH_LOG_LEVEL" "info";
        abuseipdb = record {
          enabled = abuseipdb_enabled;
          api_key = abuseipdb_key;
          max_concurrency = abuseipdb_concurrency;
          requests_per_minute = abuseipdb_minute;
          requests_per_day = abuseipdb_day;
        };
        virustotal = record {
          enabled = virustotal_enabled;
          api_key = virustotal_key;
          max_concurrency = virustotal_concurrency;
          requests_per_minute = virustotal_minute;
          requests_per_day = virustotal_day;
        };
        abuseipdb_max_age_days = max_age;
      };
    })

  unfoldable pub from_map : Values → Read Loaded
  unfolding is_unknown read_config validate
  from_map values = do
    ensure (not (any is_unknown values))
        (fault "ENRICH_ configuration" "unknown setting; check the documented configuration names")
    loaded ← read_config values
    validate m loaded.config
    ok loaded
