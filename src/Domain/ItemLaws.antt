-- ===== src/Domain/ItemLaws.antt =====
-- What `validate_item` of src/domain.rs does with the details, field by field.
use rust_enrich.Common.{
  Bool, true, false, ◌≡◌, refl, Option, none, some, [], ltb, if◌then◌else◌, ok, err, Result,
  is_none, ◌||◌,
}
use rust_enrich.Common.Text.{Text, codes, text_eq}
use rust_enrich.Domain.Types.{IndicatorKind}
use rust_enrich.Domain.Indicator.{ValidatedIndicator, Parsers, Message, validate_indicator, len}
use rust_enrich.Domain.Request.{
  RequestJson, null_value, bool_value, number_value, string_value, array_value, RequestFields,
  nil_fields, cons_field, object_value, Details, detail, as_str, pointer,
}
use rust_enrich.Domain.Item.{
  ItemScan, on_type, take_indicator, on_value, take_value, scan_field, scan_fields, close_item,
  validate_item, require, parse_kind, find,
}
use rust_enrich.Domain.Details.{
  Grows, Grows-refl, Grows-trans, detail-eq-nil, detail-Grows, invalid_type-eq-nil,
  invalid_type-Grows, require-Grows, require-eq-nil,
}

-- While there are no details, a type field gave a kind and a value field gave an indicator.
Sound : Option IndicatorKind → ItemScan → Type 0
Sound kind s =
    s.details ≡ []
    → (s.has_kind ≡ true → is_none kind ≡ false)
      × (s.has_value ≡ true → is_none kind ≡ false → is_none s.validated ≡ false)

-- One field keeps `Sound` and lets the details grow.
Step : Option IndicatorKind → ItemScan → ItemScan → Type 0
Step kind s t = Grows s.details t.details × (Sound kind s → Sound kind t)

on_type-Step :
    (kind : Option IndicatorKind) (path : Text) (name : Option Text) (s : ItemScan)
    → Step kind s (on_type kind path name s)
unfolding Step Sound on_type
on_type-Step kind path none s =
    (invalid_type-Grows s.details path, λ _ h. invalid_type-eq-nil s.details path h)
on_type-Step none path (some name) s =
    (detail-Grows s.details path _ _, λ _ h. detail-eq-nil s.details path _ _ h)
on_type-Step (some kind) path (some name) s = (Grows-refl s.details, λ f h. (λ _. refl, (f h).1))

take_indicator-Step :
    (kind : IndicatorKind) (path : Text) (r : Result Message ValidatedIndicator) (s : ItemScan)
    → Grows s.details (take_indicator path r s).details
      × ((s.details ≡ [] → s.has_kind ≡ true → is_none (some kind) ≡ false)
          → Sound (some kind) (take_indicator path r s))
unfolding Sound take_indicator
take_indicator-Step kind path (ok i) s = (Grows-refl s.details, λ f h. (f h, λ _ _. refl))
take_indicator-Step kind path (err (code, message)) s =
    (detail-Grows s.details path code message, λ f h. detail-eq-nil s.details path code message h)

take_value-Step :
    (p : Parsers) (kind : Option IndicatorKind) (path value : Text) (s : ItemScan)
    → Grows s.details (take_value p kind path value s).details
      × ((s.details ≡ [] → s.has_kind ≡ true → is_none kind ≡ false)
          → Sound kind (take_value p kind path value s))
unfolding Sound take_value
take_value-Step p none path value s = (Grows-refl s.details, λ f h. (f h, λ _ e. cc))
take_value-Step p (some kind) path value s =
    take_indicator-Step kind path (validate_indicator p kind value) s

on_value-Step :
    (p : Parsers) (kind : Option IndicatorKind) (path : Text) (text : Option Text) (s : ItemScan)
    → Step kind s (on_value p kind path text s)
unfolding Step Sound on_value
on_value-Step p kind path none s =
    (invalid_type-Grows s.details path, λ _ h. invalid_type-eq-nil s.details path h)
on_value-Step p kind path (some value) s = go (text_eq value [] || ltb 4096 (len value))
  where
    t : ItemScan
    t = record s { has_value = true }

    long : Details
    long =
        detail s.details path "invalid_value_length"
          "The value must contain between 1 and 4,096 UTF-8 bytes."

    go :
        (b : Bool)
        → Step kind s (if b then record t { details = long } else take_value p kind path value t)
    go true = (detail-Grows s.details path _ _, λ _ h. detail-eq-nil s.details path _ _ h)
    go false = let (a, f) = take_value-Step p kind path value t in (a, λ g. f λ h. (g h).0)

scan_field-Step :
    (p : Parsers) (kind : Option IndicatorKind) (path key : Text) (value : RequestJson)
    (s : ItemScan)
    → Step kind s (scan_field p kind path key value s)
unfolding Step Sound scan_field
scan_field-Step p kind path key value s =
    go (text_eq key (codes "type")) (text_eq key (codes "value"))
  where
    at : Text
    at = pointer path key

    go :
        (a b : Bool)
        → Step kind s (
            if a
            then on_type kind at (as_str value) s
            else if b
            then on_value p kind at (as_str value) s
            else record s {
              details = detail s.details at "unknown_field" "This request field is not supported.";
            })
    go true b = on_type-Step kind at (as_str value) s
    go false true = on_value-Step p kind at (as_str value) s
    go false false = (detail-Grows s.details at _ _, λ _ h. detail-eq-nil s.details at _ _ h)

scan_fields-Step :
    (p : Parsers) (kind : Option IndicatorKind) (path : Text) (fields : RequestFields)
    (s : ItemScan)
    → Step kind s (scan_fields p kind path fields s)
unfolding Step scan_fields
scan_fields-Step p kind path nil_fields s = (Grows-refl s.details, λ h. h)
scan_fields-Step p kind path (cons_field key value rest) s =
    let t = scan_field p kind path key value s in
    let (a, f) = scan_field-Step p kind path key value s in
    let (b, g) = scan_fields-Step p kind path rest t in
    (Grows-trans s.details t.details (scan_fields p kind path rest t).details a b, λ h. g (f h))

close_item-Grows :
    (kind : Option IndicatorKind) (path : Text) (details : Details) (t : ItemScan)
    → Grows details t.details
    → Sound kind t
    → Grows details (close_item path t).1
      × ((close_item path t).1 ≡ [] → is_none (close_item path t).0 ≡ false)
unfolding close_item Sound
close_item-Grows kind path details t a f =
    let at = pointer path (codes "type") in
    let d = require t.has_kind at t.details in
    let e = require t.has_value (pointer path (codes "value")) d in
    (
      Grows-trans details t.details e a (
          Grows-trans t.details d e (require-Grows t.has_kind at t.details)
            (require-Grows t.has_value _ d)),
      λ h.
          let (hv, hd) = require-eq-nil t.has_value _ d h in
          let (hk, ht) = require-eq-nil t.has_kind at t.details hd in
          let (k, v) = f ht in v hv (k hk),
    )

-- The details that an item adds keep the bound, and an item that adds none is validated.
pub validate_item-Grows :
    (p : Parsers) (value : RequestJson) (path : Text) (details : Details)
    → Grows details (validate_item p value path details).1
      × ((validate_item p value path details).1 ≡ []
          → is_none (validate_item p value path details).0 ≡ false)
unfolding validate_item Step Sound
validate_item-Grows p (object_value fields) path details =
    let kind = parse_kind (find (codes "type") fields) in
    let s : ItemScan = record {
      has_kind = false;
      has_value = false;
      validated = none;
      details = details;
    } in
    let (a, f) = scan_fields-Step p kind path fields s in
    close_item-Grows kind path details (scan_fields p kind path fields s) a
      (f (λ _. (λ e. cc, λ e. cc)))
validate_item-Grows p null_value path details =
    (invalid_type-Grows details path, λ h. invalid_type-eq-nil details path h)
validate_item-Grows p number_value path details =
    (invalid_type-Grows details path, λ h. invalid_type-eq-nil details path h)
validate_item-Grows p (bool_value _) path details =
    (invalid_type-Grows details path, λ h. invalid_type-eq-nil details path h)
validate_item-Grows p (string_value _) path details =
    (invalid_type-Grows details path, λ h. invalid_type-eq-nil details path h)
validate_item-Grows p (array_value _) path details =
    (invalid_type-Grows details path, λ h. invalid_type-eq-nil details path h)

-- An item of the request that leaves no details behind is a validated indicator.
pub validate_item-accepts :
    (p : Parsers) (value : RequestJson) (path : Text) (details : Details)
    → (validate_item p value path details).1 ≡ []
    → is_none (validate_item p value path details).0 ≡ false
validate_item-accepts p value path details = (validate_item-Grows p value path details).1
