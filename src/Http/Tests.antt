-- ===== src/Http/Tests.antt =====
-- The theorems on src/http.rs at a request for an address and a file.
use rust_enrich.Common.{
  ℕ, ◌+◌, ◌≤◌, ◌≡◌, refl, true, false, none, some, [], ◌∷◌, length, map, List, Option, String,
}
use rust_enrich.Common.Text.{codes}
use rust_enrich.Domain.Types.{ProviderId, virustotal, success}
use rust_enrich.Domain.Indicator.{ValidatedIndicator}
use rust_enrich.Domain.Outcome.{Outcome}
use rust_enrich.Enrichment.Lookup.{LookupResult}
use rust_enrich.Providers.Example.{an_address, a_file}
use rust_enrich.Http.Pairs.{identity, plan, spread}
use rust_enrich.Http.Pairs.Expand.{all_pairs, plan_distinct, plan_lem}
use rust_enrich.Http.Project.{
  Writers, ProviderEntry, ResultItem, Projection, start_projection, project_rows, attach_rows,
  project, entry_of,
}
use rust_enrich.Http.Project.Budget.{raw_bytes, project_rows-budget, project-bound}
use rust_enrich.Http.Project.Entries.{item_views, expected_views, project_rows_lem}

abbrev indicators : List ValidatedIndicator
indicators = an_address ∷ a_file ∷ an_address ∷ []

abbrev providers : List ProviderId
providers = virustotal ∷ []

plan_distinct_example : Path ℕ 0 0
unfolding plan identity
plan_distinct_example =
    plan_distinct indicators providers 0 0 (virustotal, an_address) (virustotal, an_address) refl
      refl refl

plan_lem_example :
    spread
      (identity (virustotal, a_file))
      (map identity (plan indicators providers).pairs)
      (plan indicators providers).positions
    ≡ map identity (all_pairs indicators providers)
plan_lem_example =
    plan_lem identity (identity (virustotal, a_file)) indicators providers (λ p q e. e)

abbrev writers : Writers ℕ
writers = record {
  raw_parts = λ raw. codes "{}" ∷ [];
  envelope_parts = λ envelope. codes "{" ∷ codes "}" ∷ [];
}

abbrev outcome : Outcome ℕ
outcome = record {
  status = success;
  summary = none;
  fetched_at = some 5;
  provider_updated_at = none;
  error = none;
  raw = some 0;
}

abbrev result : LookupResult ℕ
result = record { outcome = outcome; cache_hit = false; expires_at = none }

abbrev two_results : List (LookupResult ℕ)
two_results = result ∷ result ∷ []

abbrev entry : Option String → ProviderEntry ℕ
entry reason = entry_of writers virustotal result reason

-- The second raw report does not fit into two bytes behind the first.
abbrev projected : List (ResultItem ℕ) × Projection ℕ
projected = (
  record {
    index = 0;
    input = an_address.input;
    lookup_value = an_address.lookup_value;
    providers = entry none ∷ [];
  }
      ∷ record {
        index = 1;
        input = a_file.input;
        lookup_value = a_file.lookup_value;
        providers = entry (some "response_size_limit") ∷ [];
      }
      ∷ [],
  record { remaining = 0; selected = 1; entries = []; raw_values = some 0 ∷ none ∷ [] },
)

project_rows-budget_example : raw_bytes writers (some 0 ∷ none ∷ []) ≤ 2
unfolding project_rows start_projection rust_enrich.Serialization.count_parts
project_rows-budget_example =
    project_rows-budget writers true providers (an_address ∷ a_file ∷ []) two_results 2 projected
      refl

project-bound_example : length (codes "{}") ≤ 1048576 + 2
unfolding project rust_enrich.Serialization.count_parts rust_enrich.Serialization.write_parts
    rust_enrich.Serialization.write rust_enrich.Serialization.new
project-bound_example =
    project-bound writers (codes "id")
      (record { indicators = an_address ∷ a_file ∷ []; providers = providers; include_raw = true })
      two_results 2 (codes "{}") refl

project_rows_lem_example :
    item_views (attach_rows writers projected.0 projected.1.raw_values)
    ≡ expected_views providers 0 (an_address ∷ a_file ∷ []) two_results
unfolding project_rows start_projection rust_enrich.Serialization.count_parts
project_rows_lem_example =
    project_rows_lem writers true providers (an_address ∷ a_file ∷ []) two_results 2 projected refl
