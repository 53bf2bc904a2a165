-- ===== src/Http/Handle/Tests.antt =====
-- The theorems on the routes of src/http.rs at a request for a file.
use rust_enrich.Common.{ℕ, ◌+◌, ◌≡◌, refl, true, false, none, some, List, [], ◌∷◌, ◌++◌, length}
use rust_enrich.Common.Text.{Text, codes}
use rust_enrich.Domain.Types.{virustotal}
use rust_enrich.Domain.Errors.{provider_timeout}
use rust_enrich.Domain.Example.{parsers, request}
use rust_enrich.Config.Example.{config}
use rust_enrich.Enrichment.Lookup.{failure}
use rust_enrich.Http.Headers.{HeaderTools, Headers}
use rust_enrich.Http.Respond.{Bodies}
use rust_enrich.Http.Project.{Writers}
use rust_enrich.Http.Handle.{Request, Connection, post, chunk, HttpState, Turn, HttpTools, handle}
use rust_enrich.Http.Handle.Permits.{IsHolding, handle-IsHolding}
use rust_enrich.Http.Handle.Enriched.{IsAdmitted, handle-IsAdmitted}

abbrev header_tools : HeaderTools
header_tools = record { digest = λ bytes. bytes; to_str = λ value. some value }

abbrev headers : Headers
headers = record {
  authorization = codes "Bearer token" ∷ [];
  content_type = codes "application/json; charset=utf-8" ∷ [];
  content_encoding = [];
}

abbrev bodies : Bodies
bodies = record {
  error_parts = λ id error details. codes "{}" ∷ [];
  health_parts = λ word id. codes "{}" ∷ [];
  is_header_value = λ id. true;
}

abbrev writers : Writers ℕ
writers = record {
  raw_parts = λ raw. codes "{}" ∷ [];
  envelope_parts = λ envelope. codes "{" ∷ codes "}" ∷ [];
}

abbrev tools : HttpTools ℕ
tools = record {
  config = config;
  headers = header_tools;
  bodies = bodies;
  writers = writers;
  parsers = parsers;
  from_slice = λ bytes. some request;
}

abbrev idle : Connection
idle = record { deadline = none; permit = none }

-- Every lookup takes too long.
abbrev turn : Turn ℕ
turn = record {
  stopping = false;
  healthy = true;
  storage_ready = true;
  enabled = virustotal ∷ [];
  lookup = λ pair. failure provider_timeout;
  admitted_at = 0;
  looked_up_at = 10;
  projected_at = 11;
  finished_at = 11;
}

abbrev posted : Request
posted = record {
  path = codes "/v1/enrich";
  method = post;
  headers = headers;
  body = chunk (codes "{}") ∷ [];
}

abbrev state : HttpState
state = record { admission = 2; health_admission = 2; token_digest = codes "token" }

handle-IsHolding_example :
    IsHolding state true false (handle tools (codes "id") turn posted (some idle) state)
unfolding rust_enrich.Http.Headers.authorized
handle-IsHolding_example = handle-IsHolding tools (codes "id") turn posted (some idle) state refl

handle-IsAdmitted_example :
    IsAdmitted tools
      (codes "id")
      turn
      state
      posted
      (handle tools (codes "id") turn posted (some idle) state).response
unfolding handle rust_enrich.Common.Text.is_whitespace rust_enrich.Domain.Item.require
    rust_enrich.Domain.Item.validate_item rust_enrich.Common.Text.bytes
    rust_enrich.Domain.KindName.parse rust_enrich.Domain.Indicator.validate_indicator
    rust_enrich.Common.Text.is_control rust_enrich.Common.Text.is_ascii_hexdigit
    rust_enrich.Serialization.count_parts rust_enrich.Serialization.write
handle-IsAdmitted_example =
    handle-IsAdmitted tools (codes "id") turn posted (some idle) state refl refl
