-- ===== src/Providers/Decode.antt =====
-- `Adapter::decode` of src/providers.rs.
use rust_enrich.Common.{
  ℕ, Bool, ◌&&◌, none, some, List, Result, ok, err, ensure, ok_or, ◌>>=◌, ◌>>◌, ◌==◌, leb, ltb,
  if◌then◌else◌, is_ok,
}
use rust_enrich.Common.Clock.{DateTime}
use rust_enrich.Common.Text.{codes, text_eq}
use rust_enrich.Domain.Types.{ProviderId, success}
use rust_enrich.Domain.Errors.{
  ErrorCode, provider_authentication_failed, provider_access_denied, quota_exhausted,
  provider_unavailable, provider_request_rejected, invalid_response, response_too_large,
}
use rust_enrich.Domain.Outcome.{Outcome, not_found_at}
use rust_enrich.Domain.Indicator.{ValidatedIndicator}
use rust_enrich.Serialization.{new, write_parts}
use rust_enrich.Providers.Adapter.{Adapter, is_virustotal}
use rust_enrich.Providers.Report.{Codec}
use rust_enrich.Providers.Abuseipdb.{Decoded, decode_abuseipdb}
use rust_enrich.Providers.Virustotal.{decode_virustotal}

abbrev pub summary_byte_limit : ℕ
summary_byte_limit = 16384

-- `(200..300).contains(&status)`
abbrev pub is_success : ℕ → Bool
is_success status = leb 200 status && ltb status 300

module _ {Value : Type 0} (k : Codec Value) where
  -- only the documented error code establishes a missing report
  unfoldable pub decode_missing : List ℕ → DateTime → Result {0} ErrorCode (Outcome Value)
  decode_missing body now = do
    code ← ok_or (k.read_error body) provider_request_rejected
    ensure (text_eq code (codes "NotFoundError")) provider_request_rejected
    ok (not_found_at now)

  unfoldable pub decode_error :
      ProviderId → ℕ → List ℕ → DateTime → Result {0} ErrorCode (Outcome Value)
  unfolding decode_missing
  decode_error id status body now =
      if status == 401
      then err provider_authentication_failed
      else if status == 403
      then err provider_access_denied
      else if status == 429
      then err quota_exhausted
      else if status == 404 && is_virustotal id
      then decode_missing body now
      else if leb 500 status && leb status 599
      then err provider_unavailable
      else err provider_request_rejected

  unfoldable pub decode_summary : ProviderId → Value → ValidatedIndicator → Decoded
  unfolding decode_abuseipdb decode_virustotal
  decode_summary ProviderId.abuseipdb raw i = decode_abuseipdb k raw i
  decode_summary ProviderId.virustotal raw i = decode_virustotal k raw i

  unfoldable pub decode_report :
      ProviderId → List ℕ → ValidatedIndicator → DateTime → Result {0} ErrorCode (Outcome Value)
  unfolding decode_summary write_parts new
  decode_report id body i now = do
    raw ← ok_or (k.from_slice body) invalid_response
    (summary, provider_updated_at) ← decode_summary id raw i
    ensure (is_ok (write_parts (new summary_byte_limit) (k.summary_parts summary)).1)
        response_too_large
    ok (record {
      status = success;
      summary = some summary;
      fetched_at = some now;
      provider_updated_at = provider_updated_at;
      error = none;
      raw = some raw;
    })

  unfoldable pub decode :
      Adapter → ℕ → List ℕ → ValidatedIndicator → DateTime → Result {0} ErrorCode (Outcome Value)
  unfolding decode_error decode_report
  decode a status body i now =
      if is_success status then decode_report a.id body i now else decode_error a.id status body now
