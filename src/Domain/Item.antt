-- ===== src/Domain/Item.antt =====
-- `validate_item` of src/domain.rs.
use rust_enrich.Common.{
  Bool, true, false, ◌||◌, Option, none, some, [], Result, ok, err, ltb, if◌then◌else◌,
}
use rust_enrich.Common.Text.{Text, codes, text_eq}
use rust_enrich.Domain.Types.{IndicatorKind}
use rust_enrich.Domain.KindName
use rust_enrich.Domain.Indicator.{ValidatedIndicator, Parsers, Message, validate_indicator, len}
use rust_enrich.Domain.Request.{
  RequestJson, object_value, RequestFields, nil_fields, cons_field, as_str, pointer, Details,
  detail, invalid_type,
}

-- `fields.iter().find(|(key, _)| key == name)`
abbrev pub find : Text → RequestFields → Option RequestJson
find name nil_fields = none
find name (cons_field key value rest) =
    let later = find name rest in if text_eq key name then some value else later

unfoldable pub parse_kind : Option RequestJson → Option IndicatorKind
parse_kind none = none
parse_kind (some value) = elim (as_str value) [ none ↦ none | some name ↦ KindName.parse name ]

-- The locals of the loop over the fields.
pub record ItemScan : Type 0 where
  pub has_kind : Bool
  pub has_value : Bool
  pub validated : Option ValidatedIndicator
  pub details : Details

abbrev log : ItemScan → Details → ItemScan
log s details = record s { details = details }

unfoldable pub on_type : Option IndicatorKind → Text → Option Text → ItemScan → ItemScan
on_type kind path none s = record s { has_kind = true; details = invalid_type s.details path }
on_type none path (some name) s = record s {
  has_kind = true;
  details = detail s.details path "invalid_indicator_type" "Expected ip, url, or hash.";
}
on_type (some kind) path (some name) s = record s { has_kind = true }

unfoldable pub take_indicator : Text → Result Message ValidatedIndicator → ItemScan → ItemScan
take_indicator path (ok indicator) s = record s { validated = some indicator }
take_indicator path (err (code, message)) s = log s (detail s.details path code message)

unfoldable pub take_value : Parsers → Option IndicatorKind → Text → Text → ItemScan → ItemScan
unfolding take_indicator
take_value p none path value s = s
take_value p (some kind) path value s = take_indicator path (validate_indicator p kind value) s

unfoldable pub on_value : Parsers → Option IndicatorKind → Text → Option Text → ItemScan → ItemScan
unfolding take_value
on_value p kind path none s = record s { has_value = true; details = invalid_type s.details path }
on_value p kind path (some value) s =
    let t = record s { has_value = true } in
    if text_eq value [] || ltb 4096 (len value)
    then log t (
        detail s.details path "invalid_value_length"
          "The value must contain between 1 and 4,096 UTF-8 bytes.")
    else take_value p kind path value t

unfoldable pub scan_field :
    Parsers → Option IndicatorKind → Text → Text → RequestJson → ItemScan → ItemScan
unfolding on_type on_value
scan_field p kind path key value s =
    if text_eq key (codes "type")
    then on_type kind (pointer path key) (as_str value) s
    else if text_eq key (codes "value")
    then on_value p kind (pointer path key) (as_str value) s
    else log s
        (detail s.details (pointer path key) "unknown_field" "This request field is not supported.")

unfoldable pub scan_fields :
    Parsers → Option IndicatorKind → Text → RequestFields → ItemScan → ItemScan
unfolding scan_field
scan_fields p kind path nil_fields s = s
scan_fields p kind path (cons_field key value rest) s =
    scan_fields p kind path rest (scan_field p kind path key value s)

-- `detail` with the code `required` unless the field was there
unfoldable pub require : Bool → Text → Details → Details
require present path details =
    if present then details else detail details path "required" "This field is required."

unfoldable pub close_item : Text → ItemScan → Option ValidatedIndicator × Details
unfolding require
close_item path s = (
  s.validated,
  require s.has_value (pointer path (codes "value"))
      (require s.has_kind (pointer path (codes "type")) s.details),
)

unfoldable pub validate_item :
    Parsers → RequestJson → Text → Details → Option ValidatedIndicator × Details
unfolding parse_kind scan_fields close_item
validate_item p (object_value fields) path details = close_item path (
    scan_fields p (parse_kind (find (codes "type") fields)) path fields
      (record { has_kind = false; has_value = false; validated = none; details = details }))
validate_item p _ path details = (none, invalid_type details path)
