-- ===== src/Providers/Virustotal.antt =====
-- `decode_virustotal` of src/providers.rs.
use rust_enrich.Common.{
  ℕ, Bool, true, false, not, ◌&&◌, Option, none, some, Result, ok, ensure, ok_or, ◌>>=◌, ◌>>◌, ◌==◌,
  all, is_some_and, if◌then◌else◌,
}
use rust_enrich.Common.Clock.{DateTime}
use rust_enrich.Common.Text.{Text, codes, bytes, text_eq, is_ascii_hexdigit, eq_ignore_ascii_case}
use rust_enrich.Domain.Types.{IndicatorKind, ip, url, hash, HashAlgorithm, md5, sha1, sha256}
use rust_enrich.Domain.Errors.{ErrorCode, invalid_response}
use rust_enrich.Domain.Outcome.{AnalysisStats, VirustotalSummary, virustotal}
use rust_enrich.Domain.Indicator.{ValidatedIndicator, len}
use rust_enrich.Providers.Report.{VtAnalysisStats, VtAttributes, VtData, Codec, is_plain_year}
use rust_enrich.Providers.Adapter.{is_ip}
use rust_enrich.Providers.Abuseipdb.{Decoded, same_address}

abbrev is_hash : IndicatorKind → Bool
is_hash hash = true
is_hash _ = false

unfoldable pub valid_hash : Text → ℕ → Bool
valid_hash value n = len value == n && all is_ascii_hexdigit (bytes value)

abbrev Checked : Type 0
Checked = Result {0} ErrorCode Unit

-- `requested_hash`
unfoldable pub requested_hash : Option HashAlgorithm → VtData → Option Text
requested_hash none d = none
requested_hash (some md5) d = d.attributes.md5
requested_hash (some sha1) d = d.attributes.sha1
requested_hash (some sha256) d = some d.id

-- `value.is_some_and(|value| !valid_hash(value, len))` fails
unfoldable pub valid_if_some : ℕ → Option Text → Checked
unfolding valid_hash
valid_if_some n value =
    ensure (not (is_some_and value (λ v. not (valid_hash v n)))) invalid_response

-- the arm of `IndicatorKind::Hash`
unfoldable pub check_file : VtData → ValidatedIndicator → Checked
unfolding valid_hash requested_hash valid_if_some
check_file d i = do
  ensure (text_eq d.object_type (codes "file") && valid_hash d.id 64) invalid_response
  ensure
      (is_some_and (requested_hash i.hash_algorithm d)
        (λ hash. eq_ignore_ascii_case hash i.lookup_value))
      invalid_response
  valid_if_some 32 d.attributes.md5
  valid_if_some 40 d.attributes.sha1
  valid_if_some 64 d.attributes.sha256
  ensure (not (is_some_and d.attributes.sha256 (λ sha256. not (eq_ignore_ascii_case sha256 d.id))))
      invalid_response

unfoldable pub check_url : VtData → Checked
unfolding valid_hash
check_url d = ensure (text_eq d.object_type (codes "url") && valid_hash d.id 64) invalid_response

unfoldable pub read_stats : Option VtAnalysisStats → Option AnalysisStats
read_stats none = none
read_stats (some s) = some (record {
  malicious = s.malicious;
  suspicious = s.suspicious;
  harmless = s.harmless;
  undetected = s.undetected;
  timeout = s.timeout;
  confirmed_timeout = s.confirmed_timeout;
  failure = s.failure;
  type_unsupported = s.type_unsupported;
})

abbrev only {ℓ} : {A : Type ℓ} → Bool → Option A → Option A
only test o = if test then o else none

-- The summary of a report on an indicator of this kind.
unfoldable pub vt_summary : IndicatorKind → VtAttributes → Option DateTime → VirustotalSummary
unfolding read_stats
vt_summary kind a last_analysis_at = record {
  analysis_stats = read_stats a.last_analysis_stats;
  reputation = a.reputation;
  last_analysis_at = last_analysis_at;
  country = only (is_ip kind) a.country;
  asn = only (is_ip kind) a.asn;
  as_owner = only (is_ip kind) a.as_owner;
  md5 = only (is_hash kind) a.md5;
  sha1 = only (is_hash kind) a.sha1;
  sha256 = only (is_hash kind) a.sha256;
  file_type = only (is_hash kind) a.type_description;
}

module _ {Value : Type 0} (k : Codec Value) where
  unfoldable pub check_address : VtData → ValidatedIndicator → Checked
  unfolding same_address
  check_address d i = do
    ensure (text_eq d.object_type (codes "ip_address")) invalid_response
    same ← same_address k d.id i.lookup_value
    ensure same invalid_response

  unfoldable pub check_object : IndicatorKind → VtData → ValidatedIndicator → Checked
  unfolding check_address check_url check_file
  check_object ip d i = check_address d i
  check_object url d i = check_url d
  check_object hash d i = check_file d i

  -- the closure that reads `last_analysis_date`, under `transpose`
  unfoldable pub analysis_at : Option ℕ → Result {0} ErrorCode (Option DateTime)
  analysis_at none = ok none
  analysis_at (some seconds) = do
    date ← ok_or (k.from_timestamp seconds) invalid_response
    ensure (is_plain_year (k.year date)) invalid_response
    ok (some date)

  unfoldable pub decode_virustotal : Value → ValidatedIndicator → Decoded
  unfolding check_object analysis_at vt_summary
  decode_virustotal raw i = do
    d ← ok_or (k.read_virustotal raw) invalid_response
    check_object i.input.kind d i
    last_analysis_at ← analysis_at d.attributes.last_analysis_date
    ok (virustotal (vt_summary i.input.kind d.attributes last_analysis_at), last_analysis_at)
