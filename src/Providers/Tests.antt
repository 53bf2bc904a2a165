-- ===== src/Providers/Tests.antt =====
-- The theorems on src/providers.rs at the reports of an address and of a file.
use rust_enrich.Common.{ℕ, ◌≡◌, ◌⊎◌, refl, true, none, some, [], ok}
use rust_enrich.Domain.Outcome.{Outcome, Summary}
use rust_enrich.Domain.Types.{IndicatorKind, success}
use rust_enrich.Providers.Abuseipdb.{decode_abuseipdb, abuse_summary}
use rust_enrich.Providers.Virustotal.{decode_virustotal, vt_summary}
use rust_enrich.Providers.Decode.{decode, is_success}
use rust_enrich.Providers.Identity.{
  IsOwnAddress, IsOwnFile, decode_abuseipdb-Identity, decode_virustotal-Identity,
}
use rust_enrich.Providers.Answers.{IsReport, IsMissing, decode_Answers}
use rust_enrich.Providers.Example.{
  codec, an_address, a_file, abuse_data, file_data, abuseipdb_adapter,
}

decode_abuseipdb-Identity_example : IsOwnAddress codec 0 an_address
unfolding decode_abuseipdb
decode_abuseipdb-Identity_example =
    decode_abuseipdb-Identity codec 0 an_address
      (Summary.abuseipdb (abuse_summary codec abuse_data none), none) refl

decode_virustotal-Identity_example : IsOwnFile codec 0 a_file
unfolding decode_virustotal rust_enrich.Common.Text.bytes rust_enrich.Common.Text.is_ascii_hexdigit
    rust_enrich.Common.Text.eq_ignore_ascii_case
decode_virustotal-Identity_example =
    decode_virustotal-Identity codec 0 a_file
      (Summary.virustotal (vt_summary IndicatorKind.hash file_data.attributes none), none) refl refl

abbrev report : Outcome ℕ
report = record {
  status = success;
  summary = some (Summary.abuseipdb (abuse_summary codec abuse_data none));
  fetched_at = some 5;
  provider_updated_at = none;
  error = none;
  raw = some 0;
}

decode_Answers_example :
    ((is_success 200 ≡ true) × IsReport codec [] 5 report)
    ⊎ IsMissing codec abuseipdb_adapter.id 200 [] 5 report
unfolding decode rust_enrich.Serialization.write
decode_Answers_example = decode_Answers codec abuseipdb_adapter 200 [] an_address 5 report refl
