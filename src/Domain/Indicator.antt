-- ===== src/Domain/Indicator.antt =====
-- `validate_indicator` and `validate_url` of src/domain.rs. The parsers of `std::net::IpAddr` and of the
-- crate `url` are a parameter.
use rust_enrich.Common.{
  ℕ, Bool, true, false, not, ◌&&◌, ◌||◌, Option, none, some, String, List, [], ◌∷◌, Result, ok, err,
  ok_or, ensure, ◌>>=◌, ◌>>◌, ltb, ◌==◌, if◌then◌else◌, is_some, is_none, all, any, length,
}
use rust_enrich.Common.Text.{
  Text, codes, bytes, text_eq, is_ascii_hexdigit, to_ascii_lowercase, eq_ignore_ascii_case,
  is_control, is_whitespace,
}
use rust_enrich.Domain.Types.{IndicatorKind, ip, url, hash, HashAlgorithm, md5, sha1, sha256}

pub record InputIndicator : Type 0 where
  pub kind : IndicatorKind
  pub value : Text

pub record ValidatedIndicator : Type 0 where
  pub input : InputIndicator
  pub lookup_value : Text
  pub hash_algorithm : Option HashAlgorithm

-- The parts of `url::Url` that the code reads.
pub record Url : Type 0 where
  pub scheme : Text
  pub host_str : Option Text
  pub username : Text
  pub password : Option Text

-- `value.parse::<IpAddr>()` followed by `to_string`, and `Url::parse`
pub record Parsers : Type 0 where
  pub parse_ip : Text → Option Text
  pub parse_url : Text → Option Url

-- Every `%` of the bytes starts an escape of two hexadecimal digits.
unfoldable pub escapes : List ℕ → Bool
escapes [] = true
escapes (b ∷ rest) =
    let later = escapes rest in (if b == 0x25 then hex_pair rest else true) && later
  where
    hex_pair : List ℕ → Bool
    hex_pair (x ∷ y ∷ _) = is_ascii_hexdigit x && is_ascii_hexdigit y
    hex_pair _ = false

abbrev starts_with : Text → Text → Bool
starts_with s [] = true
starts_with [] (c ∷ p) = false
starts_with (d ∷ s) (c ∷ p) = d == c && starts_with s p

-- `str::contains` of a text that is not empty
abbrev contains : Text → Text → Bool
contains [] p = false
contains (c ∷ s) p = starts_with (c ∷ s) p || contains s p

-- `value.split_once("://")`
unfoldable pub split_scheme : Text → Option (Text × Text)
split_scheme [] = none
split_scheme (c ∷ s) =
    let rest = split_scheme s in
    if starts_with (c ∷ s) (codes "://") then some ([], after s) else behind rest
  where
    after : Text → Text
    after (_ ∷ _ ∷ t) = t
    after _ = []

    behind : Option (Text × Text) → Option (Text × Text)
    behind none = none
    behind (some (a, b)) = some (c ∷ a, b)

-- `remainder.split(['/', '?', '#']).next()`
unfoldable pub authority : Text → Text
authority [] = []
authority (c ∷ s) =
    let rest = authority s in if c == 0x2f || c == 0x3f || c == 0x23 then [] else c ∷ rest

abbrev ends_with : ℕ → Text → Bool
ends_with d [] = false
ends_with d (c ∷ []) = c == d
ends_with d (_ ∷ s) = ends_with d s

abbrev markers : List Text
markers =
    codes "[.]" ∷ codes "(.)" ∷ codes "{.}" ∷ codes "[dot]" ∷ codes "(dot)" ∷ codes "{dot}" ∷ []

unfoldable pub validate_url : Parsers → Text → Result {0} Unit Unit
validate_url p value = do
  ensure (not (any (λ c. c == 0x5c) value)) tt
  ensure (escapes (bytes value)) tt
  (scheme, remainder) ← ok_or (split_scheme value) tt
  ensure (eq_ignore_ascii_case scheme (codes "http") || eq_ignore_ascii_case scheme (codes "https"))
      tt
  let host = authority remainder
  ensure (not (text_eq host [] || any (λ c. c == 0x40) host || ends_with 0x3a host)) tt
  ensure (not (any (contains (to_ascii_lowercase host)) markers)) tt
  parsed ← ok_or (p.parse_url value) tt
  ensure
      (not (
        not (text_eq parsed.scheme (codes "http") || text_eq parsed.scheme (codes "https"))
        || is_none parsed.host_str
        || not (text_eq parsed.username [])
        || is_some parsed.password))
      tt

-- `value.len()`, the number of bytes
abbrev pub len : Text → ℕ
len value = length (bytes value)

abbrev pub Message : Type 0
Message = String × String

invalid : IndicatorKind → Message
invalid ip = ("invalid_ip", "Expected one IPv4 or IPv6 address.")
invalid url = (
  "invalid_url",
  "Expected an absolute HTTP(S) URL without userinfo, whitespace, backslashes, or malformed escapes.",
)
invalid hash = ("invalid_hash", "Expected 32, 40, or 64 hexadecimal characters.")

hash_algorithm_of : ℕ → Option HashAlgorithm
hash_algorithm_of n =
    if n == 32
    then some md5
    else if n == 40
    then some sha1
    else if n == 64
    then some sha256
    else none

map_err : {E F A : Type 0} → F → Result E A → Result F A
map_err f (ok a) = ok a
map_err f (err e) = err f

lookup : Parsers → IndicatorKind → Text → Result Message (Text × Option HashAlgorithm)
unfolding invalid hash_algorithm_of map_err
lookup p ip value = do address ← ok_or (p.parse_ip value) (invalid ip); ok (address, none)
lookup p url value = do map_err (invalid url) (validate_url p value); ok (value, none)
lookup p hash value = do
  ensure (all is_ascii_hexdigit (bytes value)) (invalid hash)
  algorithm ← ok_or (hash_algorithm_of (len value)) (invalid hash)
  ok (to_ascii_lowercase value, some algorithm)

unfoldable pub validate_indicator :
    Parsers → IndicatorKind → Text → Result Message ValidatedIndicator
unfolding lookup invalid
validate_indicator p kind value = do
  ensure
      (not (
        text_eq value []
        || ltb 4096 (len value)
        || any (λ ch. is_control ch || is_whitespace ch) value))
      (invalid kind)
  (lookup_value, hash_algorithm) ← lookup p kind value
  ok (record {
    input = record { kind = kind; value = value };
    lookup_value = lookup_value;
    hash_algorithm = hash_algorithm;
  })
