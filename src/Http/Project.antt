-- ===== src/Http/Project.antt =====
-- `project` of src/http.rs: the envelope of the response, with the raw reports that its budget allows.
pub mod Budget
pub mod Entries
use rust_enrich.Common.{
  ℕ, zero, suc, ◌+◌, ◌*◌, ◌-◌, ◌^◌, min, ◌==◌, Bool, true, false, not, Option, none, some, String,
  List, [], ◌∷◌, ◌++◌, length, Result, ok, err, ok_or, ensure, ◌>>=◌, ◌>>◌, leb, if◌then◌else◌,
  is_ok,
}
use rust_enrich.Common.Clock.{DateTime}
use rust_enrich.Common.Text.{Text}
use rust_enrich.Domain.Types.{ProviderId, Status}
use rust_enrich.Domain.Errors.{ErrorCode, PublicError, response_too_large, internal_error}
use rust_enrich.Domain.Outcome.{Summary}
use rust_enrich.Domain.Indicator.{InputIndicator, ValidatedIndicator}
use rust_enrich.Domain.Validate.{ValidatedRequest}
use rust_enrich.Enrichment.Lookup.{LookupResult}
use rust_enrich.Serialization.{LimitedWriter, new, write_parts, count_parts}

pub record CacheNote : Type 0 where
  pub hit : Bool
  pub expires_at : Option DateTime

pub record ProviderEntry (Value : Type 0) : Type 0 where
  pub provider : ProviderId
  pub status : Status
  pub summary : Option Summary
  pub fetched_at : Option DateTime
  pub provider_updated_at : Option DateTime
  pub cache : CacheNote
  pub error : Option PublicError
  pub raw : Option Value
  pub raw_omitted_reason : Option String

pub record ResultItem (Value : Type 0) : Type 0 where
  pub index : ℕ
  pub input : InputIndicator
  pub lookup_value : Text
  pub providers : List (ProviderEntry Value)

pub record Envelope (Value : Type 0) : Type 0 where
  pub request_id : Text
  pub results : List (ResultItem Value)

-- What serde_json writes of a raw report and of the envelope.
pub record Writers (Value : Type 0) : Type 0 where
  pub raw_parts : Value → List (List ℕ)
  pub envelope_parts : Envelope Value → List (List ℕ)

-- The locals `remaining` and `selected`, the iterator over the results, and `raw_values`.
pub record Projection (Value : Type 0) : Type 0 where
  pub remaining : ℕ
  pub selected : ℕ
  pub entries : List (LookupResult Value)
  pub raw_values : List (Option Value)

abbrev pub envelope_limit : ℕ
envelope_limit = 1048576

-- `to_writer` with its error mapped
abbrev pub counted : Result {0} Unit ℕ → Result {0} ErrorCode ℕ
counted (ok n) = ok n
counted (err _) = err response_too_large

-- What is shown of one raw report: the value, or why it is left out.
abbrev pub Shown : Type 0 → Type 0
Shown Value = Option Value × Option String

module _ {Value : Type 0} (w : Writers Value) where
  -- The raw value that fits, with what is left of the budget.
  unfoldable pub spend : Projection Value → Value → ℕ → Shown Value × Projection Value
  spend s value n =
      if leb n s.remaining
      then ((some value, none), record s { remaining = s.remaining - n; selected = s.selected + 1 })
      else ((none, some "response_size_limit"), s)

  unfoldable pub choose_raw :
      Bool → Option Value → Projection Value → Result {0} ErrorCode (Shown Value × Projection Value)
  unfolding spend
  choose_raw false raw s = ok ((none, none), s)
  choose_raw true none s = ok ((none, some "not_available"), s)
  choose_raw true (some value) s = do
    n ← counted (count_parts 0 (w.raw_parts value))
    ok (spend s value n)

  -- The entry of a result, whose raw value is put in later.
  unfoldable pub entry_of : ProviderId → LookupResult Value → Option String → ProviderEntry Value
  entry_of provider result reason = record {
    provider = provider;
    status = result.outcome.status;
    summary = result.outcome.summary;
    fetched_at = result.outcome.fetched_at;
    provider_updated_at = result.outcome.provider_updated_at;
    cache = record { hit = result.cache_hit; expires_at = result.expires_at };
    error = result.outcome.error;
    raw = none;
    raw_omitted_reason = reason;
  }

  -- `entries.next()`
  unfoldable pub next_entry :
      List (LookupResult Value) → Option (LookupResult Value × List (LookupResult Value))
  next_entry [] = none
  next_entry (result ∷ rest) = some (result, rest)

  -- the inner loop
  unfoldable pub project_row :
      Bool
      → List ProviderId
      → Projection Value
      → Result {0} ErrorCode (List (ProviderEntry Value) × Projection Value)
  unfolding choose_raw entry_of next_entry
  project_row include_raw [] s = ok ([], s)
  project_row include_raw (provider ∷ providers) s = do
    (result, rest) ← ok_or (next_entry s.entries) internal_error
    ((raw, reason), t) ← choose_raw include_raw result.outcome.raw s
    (row, u) ←
        project_row include_raw providers
          (record t { entries = rest; raw_values = t.raw_values ++ raw ∷ [] })
    ok (entry_of provider result reason ∷ row, u)

  -- the outer loop
  unfoldable pub project_rows :
      Bool
      → List ProviderId
      → ℕ
      → List ValidatedIndicator
      → Projection Value
      → Result {0} ErrorCode (List (ResultItem Value) × Projection Value)
  unfolding project_row
  project_rows include_raw providers index [] s = ok ([], s)
  project_rows include_raw providers index (i ∷ indicators) s = do
    (row, t) ← project_row include_raw providers s
    (items, u) ← project_rows include_raw providers (suc index) indicators t
    ok (
      record { index = index; input = i.input; lookup_value = i.lookup_value; providers = row }
          ∷ items,
      u,
    )

  -- `zip`: the raw values are put into the entries in order
  unfoldable pub attach_row :
      List (ProviderEntry Value)
      → List (Option Value)
      → List (ProviderEntry Value) × List (Option Value)
  attach_row [] raws = ([], raws)
  attach_row (e ∷ row) [] = (e ∷ row, [])
  attach_row (e ∷ row) (raw ∷ raws) =
      let (row', raws') = attach_row row raws in (record e { raw = raw } ∷ row', raws')

  unfoldable pub attach_rows :
      List (ResultItem Value) → List (Option Value) → List (ResultItem Value)
  unfolding attach_row
  attach_rows [] raws = []
  attach_rows (item ∷ items) raws =
      let (row, raws') = attach_row item.providers raws in
      record item { providers = row } ∷ attach_rows items raws'

  unfoldable pub start_projection : List (LookupResult Value) → ℕ → Projection Value
  start_projection outcomes raw_budget = record {
    remaining = raw_budget;
    selected = 0;
    entries = outcomes;
    raw_values = [];
  }

  -- the bytes of the writer, unless it refused some
  abbrev written_bytes : LimitedWriter × Result {0} Unit ℕ → Result {0} ErrorCode (List ℕ)
  written_bytes (out, ok n) = ok out.bytes
  written_bytes (out, err _) = err response_too_large

  -- The check of the envelope's length and the bytes of the whole response, behind the counting.
  unfoldable pub write_envelope : ℕ → ℕ → ℕ → List (List ℕ) → Result {0} ErrorCode (List ℕ)
  write_envelope n selected raw_budget parts = do
    ensure (leb (min (n + min (selected * 7) (2 ^ 64 - 1)) (2 ^ 64 - 1)) envelope_limit)
        response_too_large
    written_bytes (write_parts (new (min (envelope_limit + raw_budget) (2 ^ 64 - 1))) parts)

  unfoldable pub project :
      Text → ValidatedRequest → List (LookupResult Value) → ℕ → Result {0} ErrorCode (List ℕ)
  unfolding project_rows attach_rows start_projection write_envelope
  project id request outcomes raw_budget = do
    (results, s) ←
        project_rows request.include_raw request.providers 0 request.indicators
          (start_projection outcomes raw_budget)
    n ← counted (count_parts 0 (w.envelope_parts (record { request_id = id; results = results })))
    write_envelope n s.selected raw_budget
        (w.envelope_parts (record { request_id = id; results = attach_rows results s.raw_values }))
