-- ===== src/Config/Example.antt =====
-- A configuration that is accepted, in seconds.
use rust_enrich.Common.{true, some}
use rust_enrich.Common.Text.{codes}
use rust_enrich.Config.{Config, ProviderConfig, Platform}

abbrev pub platform : Platform
platform = record {
  is_header_value = λ t. true;
  max_permits = 1000;
  is_deadline = λ t. true;
  is_ttl = λ t. true;
}

abbrev pub provider : ProviderConfig
provider = record {
  enabled = true;
  api_key = some (codes "key");
  max_concurrency = 4;
  requests_per_minute = 4;
  requests_per_day = 500;
}

abbrev pub config : Config
config = record {
  service_token = codes "synthetic-token-of-at-least-32-bytes";
  database_path = codes "data";
  max_batch_size = 20;
  max_request_bytes = 131072;
  max_concurrent_requests = 32;
  max_shared_lookups = 64;
  max_outbound_requests = 16;
  request_timeout = 15;
  lookup_timeout = 12;
  provider_timeout = 5;
  connect_timeout = 2;
  response_write_timeout = 5;
  storage_timeout = 1;
  shutdown_grace = 20;
  max_provider_bytes = 1048576;
  max_raw_response_bytes = 8388608;
  cache_max_entries = 10000;
  cache_max_bytes = 134217728;
  cache_ip_ttl = 3600;
  cache_url_ttl = 3600;
  cache_hash_ttl = 86400;
  cache_not_found_ttl = 300;
  log_level = codes "info";
  abuseipdb = provider;
  virustotal = provider;
  abuseipdb_max_age_days = 30;
}
