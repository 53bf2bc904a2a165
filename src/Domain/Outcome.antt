-- ===== src/Domain/Outcome.antt =====
-- `Outcome`, `Summary` and their parts in src/domain.rs. A number of type `i64` is counted from `i64::MIN`, and the
-- raw JSON is a parameter.
use rust_enrich.Common.{ℕ, Bool, true, false, Option, none, some}
use rust_enrich.Common.Clock.{DateTime}
use rust_enrich.Common.Text.{Text}
use rust_enrich.Domain.Types.{Status, success, not_found}
use rust_enrich.Domain.Errors.{ErrorCode, PublicError, new, status}

pub record AnalysisStats : Type 0 where
  pub malicious : Option ℕ
  pub suspicious : Option ℕ
  pub harmless : Option ℕ
  pub undetected : Option ℕ
  pub timeout : Option ℕ
  pub confirmed_timeout : Option ℕ
  pub failure : Option ℕ
  pub type_unsupported : Option ℕ

pub record AbuseipdbSummary : Type 0 where
  pub abuse_confidence_score : Option ℕ
  pub total_reports : Option ℕ
  pub distinct_reporters : Option ℕ
  pub last_reported_at : Option DateTime
  pub country_code : Option Text
  pub isp : Option Text
  pub domain : Option Text
  pub usage_type : Option Text
  pub is_public : Option Bool
  pub is_tor : Option Bool
  pub is_whitelisted : Option Bool

pub record VirustotalSummary : Type 0 where
  pub analysis_stats : Option AnalysisStats
  pub reputation : Option ℕ
  pub last_analysis_at : Option DateTime
  pub country : Option Text
  pub asn : Option ℕ
  pub as_owner : Option Text
  pub md5 : Option Text
  pub sha1 : Option Text
  pub sha256 : Option Text
  pub file_type : Option Text

pub data Summary : Type 0 where
  abuseipdb : AbuseipdbSummary → Summary
  virustotal : VirustotalSummary → Summary

pub record Outcome (Value : Type 0) : Type 0 where
  pub status : Status
  pub summary : Option Summary
  pub fetched_at : Option DateTime
  pub provider_updated_at : Option DateTime
  pub error : Option PublicError
  pub raw : Option Value

module _ {Value : Type 0} where
  unfoldable pub empty : Status → Outcome Value
  empty s = record {
    status = s;
    summary = none;
    fetched_at = none;
    provider_updated_at = none;
    error = none;
    raw = none;
  }

  unfoldable pub failure : ErrorCode → Outcome Value
  unfolding empty
  failure code = record (empty (status code)) { error = some (new code) }

  unfoldable pub not_found_at : DateTime → Outcome Value
  unfolding empty
  not_found_at now = record (empty not_found) { fetched_at = some now }

  unfoldable pub is_cacheable : Outcome Value → Bool
  is_cacheable o = elim o.status [ success ↦ true | not_found ↦ true | _ ↦ false ]
