-- ===== src/Enrichment/Transport.antt =====
-- `is_tls_error` and `is_connection_reset` of src/enrichment.rs, and the loop of `send` that collects a body. An
-- error of reqwest is what the code asks of it; a stream of a response is the list of its chunks.
pub mod Bound
use rust_enrich.Common.{
  ℕ, ◌-◌, Bool, true, false, not, ◌||◌, ◌&&◌, Option, none, some, List, [], ◌∷◌, ◌++◌, Result, ok,
  err, ◌==◌, ltb, if◌then◌else◌, length, any, is_some_and,
}
use rust_enrich.Common.Text.{Text, codes, to_ascii_lowercase}
use rust_enrich.Domain.Errors.{
  ErrorCode, provider_timeout, invalid_response, response_too_large, provider_tls_error,
  network_error,
}

-- `std::io::ErrorKind`, as far as the code tells it
pub data ErrorKind : Type 0 where
  connection_reset connection_aborted broken_pipe other : ErrorKind

-- One link of the chain of `source`: `to_string`, and the kind if it is an `io::Error`.
pub record Cause : Type 0 where
  pub message : Text
  pub kind : Option ErrorKind

pub record TransportError : Type 0 where
  pub sources : List Cause
  pub is_timeout : Bool
  pub is_connect : Bool

abbrev starts_with : Text → Text → Bool
starts_with [] s = true
starts_with (c ∷ p) [] = false
starts_with (c ∷ p) (d ∷ s) = c == d && starts_with p s

-- `str::contains`
unfoldable pub contains_text : Text → Text → Bool
contains_text p [] = starts_with p []
contains_text p (c ∷ s) = starts_with p (c ∷ s) || contains_text p s

unfoldable pub is_tls_error : TransportError → Bool
unfolding contains_text
is_tls_error e = any names_tls e.sources
  where
    names_tls : Cause → Bool
    names_tls cause =
        let message = to_ascii_lowercase cause.message in
        contains_text (codes "certificate") message
        || contains_text (codes "tls") message
        || contains_text (codes "ssl") message

abbrev is_reset : ErrorKind → Bool
is_reset other = false
is_reset _ = true

unfoldable pub is_connection_reset : TransportError → Bool
is_connection_reset e = any (λ cause. is_some_and cause.kind is_reset) e.sources

-- the code of a request that got no response
unfoldable pub transport_code : TransportError → ErrorCode
unfolding is_tls_error
transport_code e =
    if is_tls_error e
    then provider_tls_error
    else if e.is_timeout
    then provider_timeout
    else network_error

unfoldable pub transport_retry : TransportError → Bool
unfolding is_tls_error is_connection_reset
transport_retry e =
    not (is_tls_error e) && (not e.is_timeout && (e.is_connect || is_connection_reset e))

-- How the loop over the chunks ends: with the body, with a connection that is reset, or with a code.
pub data Body : Type 0 where
  whole : List ℕ → Body
  interrupted : Body
  failed : ErrorCode → Body

abbrev chunk_failure : TransportError → Body
chunk_failure e =
    if is_connection_reset e
    then interrupted
    else failed (if e.is_timeout then provider_timeout else invalid_response)

unfoldable pub collect : ℕ → List (Result {0} TransportError (List ℕ)) → List ℕ → Body
unfolding is_connection_reset
collect limit [] body = whole body
collect limit (err e ∷ chunks) body = chunk_failure e
collect limit (ok chunk ∷ chunks) body =
    let rest = collect limit chunks (body ++ chunk) in
    if ltb (limit - length body) (length chunk) then failed response_too_large else rest
