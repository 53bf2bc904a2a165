-- ===== src/Domain/ProviderName.antt =====
-- `ProviderId::as_str` and `ProviderId::parse` of src/domain.rs.
use rust_enrich.Common.{◌≡◌, refl, Option, none, some, if◌then◌else◌, arith}
use rust_enrich.Common.Text.{Text, codes, text_eq, text_eq_sound}
use rust_enrich.Domain.Types.{ProviderId, abuseipdb, virustotal}

unfoldable pub as_str : ProviderId → Text
as_str abuseipdb = codes "abuseipdb"
as_str virustotal = codes "virustotal"

unfoldable pub parse : Text → Option ProviderId
parse value =
    if text_eq value (codes "abuseipdb")
    then some abuseipdb
    else if text_eq value (codes "virustotal")
    then some virustotal
    else none

-- A provider's name parses back to the provider.
pub parse-as_str : (provider : ProviderId) → parse (as_str provider) ≡ some provider
unfolding parse as_str
parse-as_str abuseipdb = refl
parse-as_str virustotal = refl

-- The only text that parses to a provider is the provider's name.
pub as_str-parse :
    (value : Text) (provider : ProviderId) → parse value ≡ some provider → value ≡ as_str provider
unfolding parse as_str
as_str-parse value provider h =
    ground
      (arith, text_eq_sound value (codes "abuseipdb"), text_eq_sound value (codes "virustotal"))
