-- ===== src/Providers/Adapter.antt =====
-- `Adapter` of src/providers.rs with `supports`, `cache_options` and `request`. The crates url, base64
-- and reqwest are parameters: a request is the parts that the code hands to them.
use rust_enrich.Common.{
  ℕ, Bool, true, false, ◌||◌, Option, none, some, List, [], ◌∷◌, Result, ok, ensure, ◌>>◌,
}
use rust_enrich.Common.Text.{Text, codes, bytes}
use rust_enrich.Domain.Types.{ProviderId, abuseipdb, virustotal, IndicatorKind, ip, url, hash}
use rust_enrich.Domain.Errors.{ErrorCode, provider_request_rejected, internal_error}
use rust_enrich.Domain.Indicator.{ValidatedIndicator}
use rust_enrich.Domain.Validate.{decimal}
use rust_enrich.Config.{Duration}

pub record Adapter : Type 0 where
  pub id : ProviderId
  pub api_key : Text
  pub origin : Text
  pub max_age_days : ℕ

-- What the adapter hands to url and reqwest.
pub record ProviderRequest : Type 0 where
  pub origin : Text
  pub segments : List Text
  pub query : List (Text × Text)
  pub headers : List (Text × Text)

-- `Url::parse` of an origin that can hold a path, and `URL_SAFE_NO_PAD.encode`
pub record UrlTools : Type 0 where
  pub is_base : Text → Bool
  pub encode : List ℕ → Text

unfoldable pub origin_of : ProviderId → Text
origin_of abuseipdb = codes "https://api.abuseipdb.com/"
origin_of virustotal = codes "https://www.virustotal.com/"

pub data AdapterBuildError : Type 0 where
  invalid_credentials client : AdapterBuildError

-- Whether `HeaderValue::from_str` takes a text, and whether `Client::builder` builds a client of the
-- timeouts for the connection and the attempt.
pub record ClientTools : Type 0 where
  pub is_header_value : Text → Bool
  pub builds : Duration → Duration → Bool

-- `Adapter::new`; the client itself is reqwest's
unfoldable pub new :
    ClientTools → ProviderId → Text → ℕ → Duration → Duration → Result AdapterBuildError Adapter
unfolding origin_of
new tools id api_key max_age_days connect_timeout attempt_timeout = do
  ensure (tools.is_header_value api_key) invalid_credentials
  ensure (tools.builds connect_timeout attempt_timeout) AdapterBuildError.client
  ok (record { id = id; api_key = api_key; origin = origin_of id; max_age_days = max_age_days })

abbrev pub is_virustotal : ProviderId → Bool
is_virustotal virustotal = true
is_virustotal abuseipdb = false

abbrev pub is_ip : IndicatorKind → Bool
is_ip ip = true
is_ip _ = false

unfoldable pub supports : Adapter → IndicatorKind → Bool
supports a kind = is_virustotal a.id || is_ip kind

unfoldable pub payload_version : Adapter → ℕ
payload_version a = 1

-- The fields of the JSON object.
pub record CacheOptions : Type 0 where
  pub max_age_days : Option ℕ
  pub verbose : Option Bool

unfoldable pub cache_options : Adapter → CacheOptions
cache_options a = elim a.id [
  | abuseipdb ↦ record { max_age_days = some a.max_age_days; verbose = some false }
  | virustotal ↦ record { max_age_days = none; verbose = none }
]

endpoint : UrlTools → IndicatorKind → Text → Text × Text
endpoint u ip value = (codes "ip_addresses", value)
endpoint u url value = (codes "urls", u.encode (bytes value))
endpoint u hash value = (codes "files", value)

accept : Text × Text
accept = (codes "accept", codes "application/json")

-- The request of each provider, behind the checks.
unfoldable pub request_to : UrlTools → Adapter → ProviderId → ValidatedIndicator → ProviderRequest
unfolding endpoint accept
request_to u a abuseipdb i = record {
  origin = a.origin;
  segments = codes "api" ∷ codes "v2" ∷ codes "check" ∷ [];
  query =
      (codes "ipAddress", i.lookup_value)
      ∷ (codes "maxAgeInDays", decimal 20 a.max_age_days [])
      ∷ [];
  headers = (codes "Key", a.api_key) ∷ accept ∷ [];
}
request_to u a virustotal i = record {
  origin = a.origin;
  segments =
      codes "api"
      ∷ codes "v3"
      ∷ (endpoint u i.input.kind i.lookup_value).0
      ∷ (endpoint u i.input.kind i.lookup_value).1
      ∷ [];
  query = [];
  headers = (codes "x-apikey", a.api_key) ∷ accept ∷ [];
}

unfoldable pub request :
    UrlTools → Adapter → ValidatedIndicator → Result {0} ErrorCode ProviderRequest
unfolding supports request_to
request u a i = do
  ensure (supports a i.input.kind) provider_request_rejected
  ensure (u.is_base a.origin) internal_error
  ok (request_to u a a.id i)
