-- ===== src/Http/Pairs.antt =====
-- The lookups of a request in `enrich_admitted` of src/http.rs: pairs of the same identity are looked up
-- once, and each position of the response has the number of its lookup.
mod Find
pub mod Expand
use rust_enrich.Common.{
  ℕ, zero, suc, ◌==◌, Bool, true, false, ◌&&◌, Option, none, some, List, [], ◌∷◌, ◌++◌, length,
  get_elem?, if◌then◌else◌, map,
}
use rust_enrich.Common.Text.{Text, text_eq}
use rust_enrich.Domain.Types.{
  ProviderId, abuseipdb, virustotal, IndicatorKind, ip, url, hash, HashAlgorithm, md5, sha1, sha256,
}
use rust_enrich.Domain.Indicator.{ValidatedIndicator}

abbrev pub Pair : Type 0
Pair = ProviderId × ValidatedIndicator

pub record Identity : Type 0 where
  pub provider : ProviderId
  pub kind : IndicatorKind
  pub hash_algorithm : Option HashAlgorithm
  pub lookup_value : Text

unfoldable pub identity : Pair → Identity
identity (provider, i) = record {
  provider = provider;
  kind = i.input.kind;
  hash_algorithm = i.hash_algorithm;
  lookup_value = i.lookup_value;
}

abbrev pub provider_eq : ProviderId → ProviderId → Bool
provider_eq abuseipdb abuseipdb = true
provider_eq virustotal virustotal = true
provider_eq _ _ = false

abbrev pub kind_eq : IndicatorKind → IndicatorKind → Bool
kind_eq ip ip = true
kind_eq url url = true
kind_eq hash hash = true
kind_eq _ _ = false

abbrev pub algorithm_eq : Option HashAlgorithm → Option HashAlgorithm → Bool
algorithm_eq none none = true
algorithm_eq (some md5) (some md5) = true
algorithm_eq (some sha1) (some sha1) = true
algorithm_eq (some sha256) (some sha256) = true
algorithm_eq _ _ = false

unfoldable pub identity_eq : Identity → Identity → Bool
identity_eq a b =
    provider_eq a.provider b.provider
    && (kind_eq a.kind b.kind
        && (algorithm_eq a.hash_algorithm b.hash_algorithm
            && text_eq a.lookup_value b.lookup_value))

-- The locals of the loop; `unique` holds each identity with the position of its pair.
pub record Plan : Type 0 where
  pub unique : List (Identity × ℕ)
  pub pairs : List Pair
  pub positions : List ℕ

abbrev pub no_plan : Plan
no_plan = record { unique = []; pairs = []; positions = [] }

unfoldable pub position_of : Identity → List (Identity × ℕ) → Option ℕ
unfolding identity_eq
position_of a [] = none
position_of a ((b, position) ∷ rest) =
    let later = position_of a rest in if identity_eq a b then some position else later

-- `entry(identity).or_insert_with(…)`
unfoldable pub take_pair : Plan → Pair → Option ℕ → Plan
take_pair s pair (some position) = record s { positions = s.positions ++ position ∷ [] }
take_pair s pair none = record {
  unique = s.unique ++ (identity pair, length s.pairs) ∷ [];
  pairs = s.pairs ++ pair ∷ [];
  positions = s.positions ++ length s.pairs ∷ [];
}

unfoldable pub add_pair : Plan → Pair → Plan
unfolding position_of take_pair
add_pair s pair = take_pair s pair (position_of (identity pair) s.unique)

-- the inner loop
unfoldable pub add_providers : Plan → ValidatedIndicator → List ProviderId → Plan
unfolding add_pair
add_providers s i [] = s
add_providers s i (provider ∷ rest) = add_providers (add_pair s (provider, i)) i rest

-- the outer loop
unfoldable pub add_indicators : Plan → List ProviderId → List ValidatedIndicator → Plan
unfolding add_providers
add_indicators s providers [] = s
add_indicators s providers (i ∷ rest) = add_indicators (add_providers s i providers) providers rest

unfoldable pub plan : List ValidatedIndicator → List ProviderId → Plan
unfolding add_indicators
plan indicators providers = add_indicators no_plan providers indicators

-- `unwrap_or_else`
abbrev pub or_else {ℓ} : {A : Type ℓ} → A → Option A → A
or_else a none = a
or_else a (some b) = b

-- The results in the order of the positions, from those of the pairs; `buffered` keeps their order.
unfoldable pub spread {ℓ} : {R : Type ℓ} → R → List R → List ℕ → List R
spread failed results [] = []
spread failed results (position ∷ rest) =
    or_else failed (get_elem? results position) ∷ spread failed results rest
