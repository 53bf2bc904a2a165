-- ===== src/Http/Headers.antt =====
-- `authorized` and `supported_media_type` of src/http.rs. A header's value is its bytes; SHA-256 and
-- `HeaderValue::to_str` are parameters.
pub mod Bearer
use rust_enrich.Common.{
  ℕ, Bool, true, false, not, ◌&&◌, ◌||◌, Option, none, some, List, [], ◌∷◌, ◌++◌, ◌==◌, ltb,
  if◌then◌else◌, length, all, is_some, is_some_and,
}
use rust_enrich.Common.Text.{Text, codes, bytes, text_eq, eq_ignore_ascii_case, is_whitespace}

-- The values of the headers that the code reads.
pub record Headers : Type 0 where
  pub authorization : List (List ℕ)
  pub content_type : List (List ℕ)
  pub content_encoding : List (List ℕ)

-- `Sha256::digest` and `HeaderValue::to_str`
pub record HeaderTools : Type 0 where
  pub digest : List ℕ → List ℕ
  pub to_str : List ℕ → Option Text

unfoldable pub strip_prefix : List ℕ → List ℕ → Option (List ℕ)
strip_prefix [] value = some value
strip_prefix (c ∷ prefix) [] = none
strip_prefix (c ∷ prefix) (d ∷ value) =
    let rest = strip_prefix prefix value in if c == d then rest else none

abbrev first : {A : Type 0} → List A → Option A
first [] = none
first (x ∷ xs) = some x

-- a second value
abbrev repeated : {A : Type 0} → List A → Bool
repeated [] = false
repeated (x ∷ xs) = ltb 0 (length xs)

abbrev or_empty : Option (List ℕ) → List ℕ
or_empty none = []
or_empty (some value) = value

abbrev strip_bearer : Option (List ℕ) → Option (List ℕ)
strip_bearer none = none
strip_bearer (some value) = strip_prefix (codes "Bearer ") value

unfoldable pub authorized : HeaderTools → List ℕ → Headers → Bool
unfolding strip_prefix
authorized t token_digest h =
    let value = strip_bearer (first h.authorization) in
    not (repeated h.authorization)
    && (text_eq (t.digest (or_empty value)) token_digest && is_some value)

-- `split(';')`: the segments up to each separator, and the last.
unfoldable pub split : ℕ → Text → List Text
split separator [] = [] ∷ []
split separator (c ∷ s) =
    let rest = split separator s in if c == separator then [] ∷ rest else onto c rest
  where
    onto : ℕ → List Text → List Text
    onto c [] = (c ∷ []) ∷ []
    onto c (segment ∷ segments) = (c ∷ segment) ∷ segments

-- `split_once`
unfoldable pub split_once : ℕ → Text → Option (Text × Text)
split_once separator [] = none
split_once separator (c ∷ s) =
    let rest = split_once separator s in if c == separator then some ([], s) else behind c rest
  where
    behind : ℕ → Option (Text × Text) → Option (Text × Text)
    behind c none = none
    behind c (some (key, value)) = some (c ∷ key, value)

unfoldable pub trim_start : Text → Text
trim_start [] = []
trim_start (c ∷ s) = let rest = trim_start s in if is_whitespace c then rest else c ∷ s

unfoldable pub trim_end : Text → Text
trim_end [] = []
trim_end (c ∷ s) =
    let rest = trim_end s in if is_whitespace c then unless_empty c rest else c ∷ rest
  where
    unless_empty : ℕ → Text → Text
    unless_empty c [] = []
    unless_empty c (d ∷ s) = c ∷ d ∷ s

-- `str::trim`
unfoldable pub trim : Text → Text
unfolding trim_start trim_end
trim s = trim_end (trim_start s)

unfoldable pub is_charset : Text → Bool
unfolding split_once trim eq_ignore_ascii_case
is_charset parameter = is_some_and (split_once 0x3d parameter) λ pair.
    eq_ignore_ascii_case (trim pair.0) (codes "charset")
    && (eq_ignore_ascii_case (trim pair.1) (codes "utf-8")
        || eq_ignore_ascii_case (trim pair.1) (0x22 ∷ codes "utf-8" ++ 0x22 ∷ []))

-- The trimmed segments of the content type.
unfoldable pub is_json : List Text → Bool
unfolding is_charset trim eq_ignore_ascii_case
is_json [] = false
is_json (media ∷ parameters) =
    eq_ignore_ascii_case (trim media) (codes "application/json")
    && (not (ltb 1 (length parameters)) && all (λ p. is_charset (trim p)) parameters)

unfoldable pub is_json_value : Option Text → Bool
unfolding is_json split
is_json_value none = false
is_json_value (some value) = is_json (split 0x3b value)

abbrev read_first : HeaderTools → List (List ℕ) → Option Text
read_first t [] = none
read_first t (value ∷ values) = t.to_str value

unfoldable pub supported_media_type : HeaderTools → Headers → Bool
unfolding is_json_value eq_ignore_ascii_case
supported_media_type t h =
    is_json_value (read_first t h.content_type)
    && (not (repeated h.content_type)
        && all (λ v. is_some_and (t.to_str v) λ s. eq_ignore_ascii_case s (codes "identity"))
            h.content_encoding)
