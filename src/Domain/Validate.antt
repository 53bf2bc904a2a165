-- ===== src/Domain/Validate.antt =====
-- `validate_request` of src/domain.rs.
use rust_enrich.Common.{
  ℕ, zero, suc, ◌+◌, ◌/◌, ◌%◌, Bool, true, false, ◌||◌, Option, none, some, List, [], ◌∷◌, ◌++◌,
  Result, ok, err, ltb, leb, ◌==◌, if◌then◌else◌,
}
use rust_enrich.Common.Text.{Text, codes, text_eq}
use rust_enrich.Domain.Types.{ProviderId, abuseipdb, virustotal}
use rust_enrich.Domain.ProviderName
use rust_enrich.Domain.Indicator.{ValidatedIndicator, Parsers}
use rust_enrich.Domain.Request.{
  Json, RequestJson, bool_value, array_value, object_value, RequestItems, nil_items, cons_item,
  RequestFields, nil_fields, cons_field, deserialize, as_str, pointer, Details, detail,
  invalid_type,
}
use rust_enrich.Domain.Item.{validate_item, require}

pub record ValidatedRequest : Type 0 where
  pub indicators : List ValidatedIndicator
  pub providers : List ProviderId
  pub include_raw : Bool

pub data RequestValidationError : Type 0 where
  invalid_json : RequestValidationError
  semantic : Details → RequestValidationError

-- The locals of `validate_request`.
pub record Scan : Type 0 where
  pub indicators : List ValidatedIndicator
  pub providers : List ProviderId
  pub include_raw : Bool
  pub has_indicators : Bool
  pub details : Details

abbrev pub log : Scan → Details → Scan
log s details = record s { details = details }

-- the declared order of the enumeration, which `Ord` derives
abbrev pub rank : ProviderId → ℕ
rank abuseipdb = 0
rank virustotal = 1

unfoldable pub insert_provider : ProviderId → List ProviderId → List ProviderId
insert_provider p [] = p ∷ []
insert_provider p (q ∷ ps) =
    let rest = insert_provider p ps in if leb (rank p) (rank q) then p ∷ q ∷ ps else q ∷ rest

-- `providers.sort_unstable()`
unfoldable pub sort_providers : List ProviderId → List ProviderId
unfolding insert_provider
sort_providers [] = []
sort_providers (p ∷ ps) = insert_provider p (sort_providers ps)

abbrev pub contains : List ProviderId → ProviderId → Bool
contains [] p = false
contains (q ∷ ps) p = rank q == rank p || contains ps p

abbrev pub replace_first : ProviderId → List ProviderId → List ProviderId
replace_first p [] = p ∷ []
replace_first p (_ ∷ ps) = p ∷ ps

-- `providers.dedup()`: of equal neighbours, the first stays.
abbrev pub dedup : List ProviderId → List ProviderId
dedup [] = []
dedup (p ∷ []) = p ∷ []
dedup (p ∷ q ∷ ps) =
    let rest = dedup (q ∷ ps) in if rank p == rank q then replace_first p rest else p ∷ rest

-- `usize::to_string`; twenty digits hold every 64-bit index.
abbrev pub decimal : ℕ → ℕ → Text → Text
decimal zero n rest = rest
decimal (suc fuel) n rest =
    let more = decimal fuel (n / 10) ((48 + n % 10) ∷ rest) in
    if ltb n 10 then (48 + n % 10) ∷ rest else more

abbrev pub index_path : Text → ℕ → Text
index_path path index = pointer path (decimal 20 index [])

abbrev pub count : RequestItems → ℕ
count nil_items = 0
count (cons_item _ items) = 1 + count items

unfoldable pub keep_indicator : Option ValidatedIndicator × Details → Scan → Scan
keep_indicator (none, details) s = log s details
keep_indicator (some indicator, details) s = record s {
  indicators = s.indicators ++ indicator ∷ [];
  details = details;
}

unfoldable pub scan_items : Parsers → Text → ℕ → RequestItems → Scan → Scan
unfolding keep_indicator
scan_items p path index nil_items s = s
scan_items p path index (cons_item value items) s =
    scan_items p path (suc index) items
      (keep_indicator (validate_item p value (index_path path index) s.details) s)

unfoldable pub check_batch : ℕ → Text → ℕ → Scan → Scan
check_batch max_batch path n s =
    if n == 0 || ltb max_batch n
    then log s (
        detail s.details path "invalid_batch_size"
          "The indicator count is outside the permitted range.")
    else s

unfoldable pub on_indicators : Parsers → ℕ → Text → RequestJson → Scan → Scan
unfolding check_batch scan_items
on_indicators p max_batch path (array_value items) s =
    scan_items p path 0 items
      (check_batch max_batch path (count items) (record s { has_indicators = true }))
on_indicators p max_batch path _ s = record s {
  has_indicators = true;
  details = invalid_type s.details path;
}

-- `providers` was cleared, so it holds what the source's `seen` holds.
unfoldable pub take_provider : Text → Option ProviderId → Scan → Scan
take_provider path none s =
    log s (detail s.details path "unknown_provider" "The provider ID is not recognized.")
take_provider path (some id) s =
    if contains s.providers id
    then log s (detail s.details path "duplicate_provider" "Provider IDs must not be repeated.")
    else record s { providers = s.providers ++ id ∷ [] }

unfoldable pub scan_provider : Text → Option Text → Scan → Scan
unfolding take_provider
scan_provider path none s = log s (invalid_type s.details path)
scan_provider path (some value) s = take_provider path (ProviderName.parse value) s

unfoldable pub scan_providers : Text → ℕ → RequestItems → Scan → Scan
unfolding scan_provider
scan_providers path index nil_items s = s
scan_providers path index (cons_item value items) s =
    scan_providers path (suc index) items (scan_provider (index_path path index) (as_str value) s)

unfoldable pub on_providers : Text → RequestJson → Scan → Scan
unfolding scan_providers
on_providers path (array_value nil_items) s = record s {
  providers = [];
  details = detail s.details path "empty_providers" "Select at least one provider.";
}
on_providers path (array_value items) s = scan_providers path 0 items (record s { providers = [] })
on_providers path _ s = record s { providers = []; details = invalid_type s.details path }

unfoldable pub on_include_raw : Text → RequestJson → Scan → Scan
on_include_raw path (bool_value value) s = record s { include_raw = value }
on_include_raw path _ s = log s (invalid_type s.details path)

unfoldable pub on_field : Parsers → ℕ → Text → RequestJson → Scan → Scan
unfolding on_indicators on_providers on_include_raw
on_field p max_batch key value s =
    let path = pointer [] key in
    if text_eq key (codes "indicators")
    then on_indicators p max_batch path value s
    else if text_eq key (codes "providers")
    then on_providers path value s
    else if text_eq key (codes "include_raw")
    then on_include_raw path value s
    else log s (detail s.details path "unknown_field" "This request field is not supported.")

unfoldable pub on_fields : Parsers → ℕ → RequestFields → Scan → Scan
unfolding on_field
on_fields p max_batch nil_fields s = s
on_fields p max_batch (cons_field key value rest) s =
    on_fields p max_batch rest (on_field p max_batch key value s)

unfoldable pub verdict : Scan → Details → Result RequestValidationError ValidatedRequest
verdict s [] =
    ok (record { indicators = s.indicators; providers = s.providers; include_raw = s.include_raw })
verdict s (d ∷ details) = err (semantic (d ∷ details))

unfoldable pub close_request : Scan → Result RequestValidationError ValidatedRequest
unfolding verdict
close_request s = verdict s (require s.has_indicators (codes "/indicators") s.details)

unfoldable pub validate_json :
    Parsers → ℕ → List ProviderId → RequestJson → Result RequestValidationError ValidatedRequest
unfolding on_fields close_request sort_providers
validate_json p max_batch enabled (object_value fields) = close_request (
    on_fields p max_batch fields (record {
      indicators = [];
      providers = dedup (sort_providers enabled);
      include_raw = false;
      has_indicators = false;
      details = [];
    }))
validate_json p max_batch enabled _ = err (semantic (invalid_type [] []))

unfoldable pub validate_decoded :
    Parsers
    → ℕ
    → List ProviderId
    → Result {0} Unit RequestJson
    → Result RequestValidationError ValidatedRequest
unfolding validate_json
validate_decoded p max_batch enabled (err _) = err invalid_json
validate_decoded p max_batch enabled (ok json) = validate_json p max_batch enabled json

unfoldable pub validate_read :
    Parsers → ℕ → List ProviderId → Option Json → Result RequestValidationError ValidatedRequest
unfolding validate_decoded deserialize
validate_read p max_batch enabled none = err invalid_json
validate_read p max_batch enabled (some json) =
    validate_decoded p max_batch enabled (deserialize json)

-- `from_slice` stands for serde_json's reading of the bytes.
unfoldable pub validate_request :
    (List ℕ → Option Json)
    → Parsers
    → List ℕ
    → ℕ
    → List ProviderId
    → Result RequestValidationError ValidatedRequest
unfolding validate_read
validate_request from_slice p bytes max_batch enabled =
    validate_read p max_batch enabled (from_slice bytes)
