-- ===== src/Config/Tests.antt =====
-- The theorem on src/config.rs at the settings of one provider.
use rust_enrich.Common.{◌≤◌, ◌≡◌, refl, true, false, none, some, [], ◌∷◌, ok}
use rust_enrich.Common.Text.{codes}
use rust_enrich.Config.{
  validate, validate_secret, demand, demand_all, check_capacities, check_deadlines, check_order,
  check_ttls, check_provider, is_level,
}
use rust_enrich.Config.Example.{platform, provider, config}
use rust_enrich.Config.Load.{Values, Reader, Loaded, from_map}
use rust_enrich.Config.Load.Checked.{IsChecked, from_map-IsChecked}

abbrev values : Values
values =
    (codes "ENRICH_SERVICE_TOKEN", codes "synthetic-token-of-at-least-32-bytes")
    ∷ (codes "ENRICH_VIRUSTOTAL_ENABLED", codes "true")
    ∷ (codes "ENRICH_VIRUSTOTAL_API_KEY", codes "key")
    ∷ []

abbrev reader : Reader
reader = record { read_to_string = λ path. none; parse_addr = λ text. some text }

-- The settings' defaults, beside those values.
abbrev loaded : Loaded
loaded = record {
  bind_addr = codes "127.0.0.1:8080";
  config = record config {
    database_path = codes "./data/rustenrich.sqlite";
    request_timeout = 15000000000;
    lookup_timeout = 12000000000;
    provider_timeout = 5000000000;
    connect_timeout = 2000000000;
    response_write_timeout = 5000000000;
    storage_timeout = 1000000000;
    shutdown_grace = 20000000000;
    cache_ip_ttl = 3600000000000;
    cache_url_ttl = 3600000000000;
    cache_hash_ttl = 86400000000000;
    cache_not_found_ttl = 300000000000;
    abuseipdb = record provider {
      enabled = false;
      api_key = none;
      requests_per_minute = 0;
      requests_per_day = 1000;
    };
  };
}

from_map-IsChecked_example : IsChecked platform reader values loaded
unfolding from_map validate validate_secret demand demand_all check_capacities check_deadlines
    check_order check_ttls check_provider is_level rust_enrich.Common.Text.bytes
from_map-IsChecked_example = from_map-IsChecked platform reader values loaded refl
