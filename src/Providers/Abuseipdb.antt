-- ===== src/Providers/Abuseipdb.antt =====
-- `decode_abuseipdb` of src/providers.rs.
use rust_enrich.Common.{
  Bool, not, ◌&&◌, Option, none, some, Result, ok, ensure, ok_or, ◌>>=◌, ◌>>◌, ltb, is_some_and,
}
use rust_enrich.Common.Clock.{DateTime}
use rust_enrich.Common.Text.{Text, text_eq}
use rust_enrich.Domain.Errors.{ErrorCode, invalid_response}
use rust_enrich.Domain.Outcome.{AbuseipdbSummary, Summary, abuseipdb}
use rust_enrich.Domain.Indicator.{ValidatedIndicator}
use rust_enrich.Providers.Report.{AbuseData, Codec, is_plain_year}
use rust_enrich.Providers.Adapter.{is_ip}

-- `DecodedSummary`
abbrev pub Decoded : Type 0
Decoded = Result {0} ErrorCode (Summary × Option DateTime)

module _ {Value : Type 0} (k : Codec Value) where
  unfoldable pub same_address : Text → Text → Result {0} ErrorCode Bool
  same_address a b = do
    x ← ok_or (k.parse_ip a) invalid_response
    y ← ok_or (k.parse_ip b) invalid_response
    ok (text_eq x y)

  -- the closure that reads `last_reported_at`, under `transpose`
  unfoldable pub reported_at : Option Text → Result {0} ErrorCode (Option DateTime)
  reported_at none = ok none
  reported_at (some timestamp) = do
    date ← ok_or (k.parse_rfc3339 timestamp) invalid_response
    ensure (is_plain_year (k.year date)) invalid_response
    ok (some date)

  unfoldable pub abuse_summary : AbuseData → Option DateTime → AbuseipdbSummary
  abuse_summary d last_reported_at = record {
    abuse_confidence_score = d.abuse_confidence_score;
    total_reports = d.total_reports;
    distinct_reporters = d.num_distinct_users;
    last_reported_at = last_reported_at;
    country_code = d.country_code;
    isp = d.isp;
    domain = d.domain;
    usage_type = d.usage_type;
    is_public = d.is_public;
    is_tor = d.is_tor;
    is_whitelisted = d.is_whitelisted;
  }

  unfoldable pub decode_abuseipdb : Value → ValidatedIndicator → Decoded
  unfolding same_address reported_at abuse_summary
  decode_abuseipdb raw i = do
    ensure (is_ip i.input.kind) invalid_response
    d ← ok_or (k.read_abuse raw) invalid_response
    same ← same_address d.ip_address i.lookup_value
    ensure (same && not (is_some_and d.abuse_confidence_score (ltb 100))) invalid_response
    last_reported_at ← reported_at d.last_reported_at
    ok (abuseipdb (abuse_summary d last_reported_at), last_reported_at)
