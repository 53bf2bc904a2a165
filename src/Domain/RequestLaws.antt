-- ===== src/Domain/RequestLaws.antt =====
-- What one field of the request does to the locals of `validate_request` in src/domain.rs.
use rust_enrich.Common.{
  ℕ, suc, ◌+◌, true, false, ◌≡◌, refl, Option, none, some, [], ◌∷◌, length, length-append, arith,
  is_none, Bool-cases, inl, inr,
}
use rust_enrich.Common.Text.{Text}
use rust_enrich.Domain.Types.{ProviderId}
use rust_enrich.Domain.ProviderName
use rust_enrich.Domain.Indicator.{ValidatedIndicator, Parsers}
use rust_enrich.Domain.Request.{
  RequestJson, null_value, bool_value, number_value, string_value, array_value, object_value,
  RequestItems, nil_items, cons_item, Details, as_str,
}
use rust_enrich.Domain.Item.{validate_item}
use rust_enrich.Domain.ItemLaws.{validate_item-Grows}
use rust_enrich.Domain.Details.{Grows, Grows-refl, Grows-trans, detail-Grows, invalid_type-Grows}
use rust_enrich.Domain.ProviderOrder.{distinct, snoc-distinct}
use rust_enrich.Domain.Validate.{
  Scan, count, contains, index_path, keep_indicator, scan_items, take_provider, scan_provider,
  scan_providers, on_providers, on_include_raw,
}

-- A step that leaves the indicators alone.
unfoldable pub Frame : Scan → Scan → Type 0
Frame s t =
    Grows s.details t.details
    × (t.indicators ≡ s.indicators)
    × (t.has_indicators ≡ s.has_indicators)
    × (distinct s.providers ≡ true → distinct t.providers ≡ true)

Frame-trans : (s t u : Scan) → Frame s t → Frame t u → Frame s u
unfolding Frame
Frame-trans s t u (a, b, c, d) (a', b', c', d') =
    (Grows-trans s.details t.details u.details a a', cc, cc, λ h. d' (d h))

take_provider-Frame :
    (path : Text) (id : Option ProviderId) (s : Scan) → Frame s (take_provider path id s)
unfolding Frame take_provider
take_provider-Frame path none s = (detail-Grows s.details path _ _, refl, refl, λ h. h)
take_provider-Frame path (some id) s = elim (Bool-cases (contains s.providers id)) [
  | inl e ↦ rw (e) (detail-Grows s.details path _ _, refl, refl, λ h. h)
  | inr e ↦ rw (e) (Grows-refl s.details, refl, refl, λ h. snoc-distinct s.providers id h e)
]

scan_provider-Frame :
    (path : Text) (name : Option Text) (s : Scan) → Frame s (scan_provider path name s)
unfolding Frame scan_provider
scan_provider-Frame path none s = (invalid_type-Grows s.details path, refl, refl, λ h. h)
scan_provider-Frame path (some name) s = take_provider-Frame path (ProviderName.parse name) s

scan_providers-Frame :
    (path : Text) (index : ℕ) (items : RequestItems) (s : Scan)
    → Frame s (scan_providers path index items s)
unfolding Frame scan_providers
scan_providers-Frame path index nil_items s = (Grows-refl s.details, refl, refl, λ h. h)
scan_providers-Frame path index (cons_item value items) s =
    let t = scan_provider (index_path path index) (as_str value) s in
    Frame-trans s t (scan_providers path (suc index) items t)
      (scan_provider-Frame (index_path path index) (as_str value) s)
      (scan_providers-Frame path (suc index) items t)

abbrev bad_providers : Scan → Details → Scan
bad_providers s details = record s { providers = []; details = details }

pub on_providers-Frame :
    (path : Text) (value : RequestJson) (s : Scan) → Frame s (on_providers path value s)
unfolding Frame on_providers distinct
on_providers-Frame path (array_value nil_items) s =
    (detail-Grows s.details path _ _, refl, refl, λ _. refl)
on_providers-Frame path (array_value (cons_item value items)) s =
    let (a, b, c, d) =
      scan_providers-Frame path 0 (cons_item value items) (record s { providers = [] }) in
    (a, b, c, λ _. d refl)
on_providers-Frame path null_value s = (invalid_type-Grows s.details path, refl, refl, λ _. refl)
on_providers-Frame path number_value s = (invalid_type-Grows s.details path, refl, refl, λ _. refl)
on_providers-Frame path (bool_value _) s =
    (invalid_type-Grows s.details path, refl, refl, λ _. refl)
on_providers-Frame path (string_value _) s =
    (invalid_type-Grows s.details path, refl, refl, λ _. refl)
on_providers-Frame path (object_value _) s =
    (invalid_type-Grows s.details path, refl, refl, λ _. refl)

pub on_include_raw-Frame :
    (path : Text) (value : RequestJson) (s : Scan) → Frame s (on_include_raw path value s)
unfolding Frame on_include_raw
on_include_raw-Frame path (bool_value _) s = (Grows-refl s.details, refl, refl, λ h. h)
on_include_raw-Frame path null_value s = (invalid_type-Grows s.details path, refl, refl, λ h. h)
on_include_raw-Frame path number_value s = (invalid_type-Grows s.details path, refl, refl, λ h. h)
on_include_raw-Frame path (string_value _) s =
    (invalid_type-Grows s.details path, refl, refl, λ h. h)
on_include_raw-Frame path (array_value _) s =
    (invalid_type-Grows s.details path, refl, refl, λ h. h)
on_include_raw-Frame path (object_value _) s =
    (invalid_type-Grows s.details path, refl, refl, λ h. h)

-- A step that adds `n` indicators, when it leaves no details.
unfoldable pub Adds : ℕ → Scan → Scan → Type 0
Adds n s t =
    Grows s.details t.details
    × (t.providers ≡ s.providers)
    × (t.has_indicators ≡ s.has_indicators)
    × (t.details ≡ [] → length t.indicators ≡ length s.indicators + n)

Adds-trans : (m n : ℕ) (s t u : Scan) → Adds m s t → Adds n t u → Adds (m + n) s u
unfolding Adds Grows
Adds-trans m n s t u (a, b, c, d) (a', b', c', d') =
    (Grows-trans s.details t.details u.details a a', cc, cc, λ h. omega (arith, d (a'.0 h), d' h))

keep_indicator-Adds :
    (indicator : Option ValidatedIndicator) (details : Details) (s : Scan)
    → Grows s.details details
    → (details ≡ [] → is_none indicator ≡ false)
    → Adds 1 s (keep_indicator (indicator, details) s)
unfolding Adds keep_indicator
keep_indicator-Adds none details s g f = (g, refl, refl, λ h. absurd_bool (f h))
  where
    absurd_bool : {A : Type 0} → true ≡ false → A
    absurd_bool e = cc
keep_indicator-Adds (some indicator) details s g f =
    (g, refl, refl, λ _. length-append s.indicators (indicator ∷ []))

pub scan_items-Adds :
    (p : Parsers) (path : Text) (index : ℕ) (items : RequestItems) (s : Scan)
    → Adds (count items) s (scan_items p path index items s)
unfolding Adds scan_items
scan_items-Adds p path index nil_items s = (Grows-refl s.details, refl, refl, λ _. omega arith)
scan_items-Adds p path index (cons_item value items) s =
    let at = index_path path index in
    let t = keep_indicator (validate_item p value at s.details) s in
    let (g, f) = validate_item-Grows p value at s.details in
    Adds-trans 1 (count items) s t (scan_items p path (suc index) items t)
      (keep_indicator-Adds (validate_item p value at s.details).0
        (validate_item p value at s.details).1 s g f)
      (scan_items-Adds p path (suc index) items t)
