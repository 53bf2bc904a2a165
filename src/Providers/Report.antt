-- ===== src/Providers/Report.antt =====
-- The reports of the providers as src/providers.rs deserializes them, and what the code uses of serde_json,
-- chrono and the standard library's address parser to read them. An `i64` or a year is a number counted
-- from the least value of its type.
use rust_enrich.Common.{ℕ, Bool, Option, List, ◌^◌, ◌+◌, leb, ◌&&◌}
use rust_enrich.Common.Clock.{DateTime}
use rust_enrich.Common.Text.{Text}
use rust_enrich.Domain.Outcome.{Summary}

pub record AbuseData : Type 0 where
  pub ip_address : Text
  pub abuse_confidence_score : Option ℕ
  pub total_reports : Option ℕ
  pub num_distinct_users : Option ℕ
  pub last_reported_at : Option Text
  pub country_code : Option Text
  pub isp : Option Text
  pub domain : Option Text
  pub usage_type : Option Text
  pub is_public : Option Bool
  pub is_tor : Option Bool
  pub is_whitelisted : Option Bool

pub record VtAnalysisStats : Type 0 where
  pub malicious : Option ℕ
  pub suspicious : Option ℕ
  pub harmless : Option ℕ
  pub undetected : Option ℕ
  pub timeout : Option ℕ
  pub confirmed_timeout : Option ℕ
  pub failure : Option ℕ
  pub type_unsupported : Option ℕ

pub record VtAttributes : Type 0 where
  pub last_analysis_stats : Option VtAnalysisStats
  pub reputation : Option ℕ
  pub last_analysis_date : Option ℕ
  pub country : Option Text
  pub asn : Option ℕ
  pub as_owner : Option Text
  pub md5 : Option Text
  pub sha1 : Option Text
  pub sha256 : Option Text
  pub type_description : Option Text

pub record VtData : Type 0 where
  pub id : Text
  pub object_type : Text
  pub attributes : VtAttributes

pub record Codec (Value : Type 0) : Type 0 where
  -- `serde_json::from_slice`, and the derived `deserialize` of each envelope, down to its `data`
  pub from_slice : List ℕ → Option Value
  pub read_abuse : Value → Option AbuseData
  pub read_virustotal : Value → Option VtData
  -- `from_slice` into `ErrorEnvelope`, down to the code
  pub read_error : List ℕ → Option Text
  -- the parts that `to_writer` writes
  pub summary_parts : Summary → List (List ℕ)
  pub raw_parts : Value → List (List ℕ)
  -- `parse::<IpAddr>`, with an address as its canonical text
  pub parse_ip : Text → Option Text
  -- `DateTime::parse_from_rfc3339` with `with_timezone(&Utc)`, `DateTime::from_timestamp(_, 0)`, `year`
  pub parse_rfc3339 : Text → Option DateTime
  pub from_timestamp : ℕ → Option DateTime
  pub year : DateTime → ℕ

-- `(0..=9999).contains(&year)`
unfoldable pub is_plain_year : ℕ → Bool
is_plain_year year = leb (2 ^ 31) year && leb year (2 ^ 31 + 9999)
