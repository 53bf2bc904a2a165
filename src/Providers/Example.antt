-- ===== src/Providers/Example.antt =====
-- A codec that reads one report of each provider of any body, and what it is looked up for.
use rust_enrich.Common.{ℕ, ◌+◌, ◌^◌, true, none, some, [], ◌∷◌}
use rust_enrich.Common.Text.{Text, codes}
use rust_enrich.Domain.Types.{ip, hash, sha256, ProviderId}
use rust_enrich.Domain.Indicator.{ValidatedIndicator}
use rust_enrich.Providers.Adapter.{Adapter, UrlTools}
use rust_enrich.Providers.Report.{AbuseData, VtAttributes, VtData, Codec}

abbrev pub address : Text
address = codes "192.0.2.1"

abbrev pub digest : Text
digest = codes "e3b0c44298fc1c149afbf4c8996fb92427ae41e4649b934ca495991b7852b855"

abbrev pub abuse_data : AbuseData
abuse_data = record {
  ip_address = address;
  abuse_confidence_score = some 7;
  total_reports = some 2;
  num_distinct_users = none;
  last_reported_at = none;
  country_code = none;
  isp = none;
  domain = none;
  usage_type = none;
  is_public = none;
  is_tor = none;
  is_whitelisted = none;
}

abbrev no_attributes : VtAttributes
no_attributes = record {
  last_analysis_stats = none;
  reputation = none;
  last_analysis_date = none;
  country = none;
  asn = none;
  as_owner = none;
  md5 = none;
  sha1 = none;
  sha256 = some digest;
  type_description = none;
}

abbrev pub file_data : VtData
file_data = record { id = digest; object_type = codes "file"; attributes = no_attributes }

abbrev pub codec : Codec ℕ
codec = record {
  from_slice = λ body. some 0;
  read_abuse = λ raw. some abuse_data;
  read_virustotal = λ raw. some file_data;
  read_error = λ body. some (codes "NotFoundError");
  summary_parts = λ s. codes "{}" ∷ [];
  raw_parts = λ raw. codes "{" ∷ codes "}" ∷ [];
  parse_ip = λ text. some text;
  parse_rfc3339 = λ text. none;
  from_timestamp = λ seconds. some seconds;
  year = λ date. 2 ^ 31 + 2024;
}

abbrev pub an_address : ValidatedIndicator
an_address = record {
  input = record { kind = ip; value = address };
  lookup_value = address;
  hash_algorithm = none;
}

abbrev pub a_file : ValidatedIndicator
a_file = record {
  input = record { kind = hash; value = digest };
  lookup_value = digest;
  hash_algorithm = some sha256;
}

abbrev pub abuseipdb_adapter : Adapter
abuseipdb_adapter = record {
  id = ProviderId.abuseipdb;
  api_key = codes "key";
  origin = codes "https://api.abuseipdb.com/";
  max_age_days = 30;
}

abbrev pub urls : UrlTools
urls = record { is_base = λ origin. true; encode = λ bytes. bytes }
