-- ===== src/Domain/Tests.antt =====
-- The theorems on src/domain.rs at concrete inputs.
use rust_enrich.Common.{
  ℕ, ◌≡◌, refl, Bool, true, false, Option, none, some, List, [], ◌∷◌, Result, ok, err, is_none,
  is_some, ◌||◌,
}
use rust_enrich.Common.Text.{Text, codes}
use rust_enrich.Domain.Types.{abuseipdb, virustotal}
use rust_enrich.Domain.ProviderName.{as_str, parse, as_str-parse}
use rust_enrich.Domain.Indicator.{validate_indicator}
use rust_enrich.Domain.Request.{RequestJson, string_value, object_value, nil_fields, cons_field}
use rust_enrich.Domain.Example.{parsers, md5_text, request}
use rust_enrich.Domain.Item.{validate_item}
use rust_enrich.Domain.ItemLaws.{validate_item-accepts}
use rust_enrich.Domain.Validate.{validate_request}
use rust_enrich.Domain.Accepted.{Answer, validate_request-Answer}

validate_request-Answer_example :
    Answer 5 (validate_request (λ bytes. some request) parsers [] 5 (virustotal ∷ abuseipdb ∷ []))
validate_request-Answer_example =
    validate_request-Answer (λ bytes. some request) parsers [] 5 (virustotal ∷ abuseipdb ∷ [])

abbrev hash_item : RequestJson
hash_item = object_value (
    cons_field (codes "type") (string_value (codes "hash"))
      (cons_field (codes "value") (string_value md5_text) nil_fields))

no_details_example : (validate_item parsers hash_item [] []).1 ≡ []
unfolding validate_item rust_enrich.Common.Text.bytes rust_enrich.Domain.KindName.parse
    validate_indicator rust_enrich.Common.Text.is_control rust_enrich.Common.Text.is_whitespace
    rust_enrich.Common.Text.is_ascii_hexdigit
no_details_example = refl

validate_item-accepts_example : is_none (validate_item parsers hash_item [] []).0 ≡ false
validate_item-accepts_example = validate_item-accepts parsers hash_item [] [] no_details_example

parse_example : parse (codes "virustotal") ≡ some virustotal
unfolding parse
parse_example = refl

as_str-parse_example : codes "virustotal" ≡ as_str virustotal
as_str-parse_example = as_str-parse (codes "virustotal") virustotal parse_example
