-- ===== src/Domain/Request.antt =====
-- `RequestJson`, `pointer` and `detail` of src/domain.rs. `serde_json`'s reading of the
-- bytes is a parameter: it gives a tree whose objects keep every field in the order of the input.
use rust_enrich.Common.{
  ℕ, Bool, not, Option, none, some, String, List, [], ◌∷◌, ◌++◌, Result, ok, ensure, ◌>>=◌, ◌>>◌,
  ltb, ◌==◌, if◌then◌else◌, any, length,
}
use rust_enrich.Common.Text.{Text, codes, text_eq}

mutual
  -- The events that serde_json gives a visitor.
  pub data Json : Type 0 where
    unit number : Json
    bool : Bool → Json
    str : Text → Json
    seq : JsonItems → Json
    map : JsonFields → Json

  pub data JsonItems : Type 0 where
    no_items : JsonItems
    item : Json → JsonItems → JsonItems

  pub data JsonFields : Type 0 where
    no_fields : JsonFields
    field : Text → Json → JsonFields → JsonFields

mutual
  pub data RequestJson : Type 0 where
    null_value number_value : RequestJson
    bool_value : Bool → RequestJson
    string_value : Text → RequestJson
    array_value : RequestItems → RequestJson
    object_value : RequestFields → RequestJson

  pub data RequestItems : Type 0 where
    nil_items : RequestItems
    cons_item : RequestJson → RequestItems → RequestItems

  pub data RequestFields : Type 0 where
    nil_fields : RequestFields
    cons_field : Text → RequestJson → RequestFields → RequestFields

abbrev pub member : Text → List Text → Bool
member key keys = any (text_eq key) keys

-- `RequestJson::deserialize`: `visit_map` refuses a repeated key.
unfoldable mutual
  pub deserialize : Json → Result {0} Unit RequestJson
  deserialize unit = ok null_value
  deserialize number = ok number_value
  deserialize (bool value) = ok (bool_value value)
  deserialize (str value) = ok (string_value value)
  deserialize (seq items) = do values ← visit_seq items; ok (array_value values)
  deserialize (map entries) = do fields ← visit_map [] entries; ok (object_value fields)

  pub visit_seq : JsonItems → Result {0} Unit RequestItems
  visit_seq no_items = ok nil_items
  visit_seq (item value rest) = do v ← deserialize value; vs ← visit_seq rest; ok (cons_item v vs)

  pub visit_map : List Text → JsonFields → Result {0} Unit RequestFields
  visit_map keys no_fields = ok nil_fields
  visit_map keys (field key value rest) = do
    ensure (not (member key keys)) tt
    v ← deserialize value
    vs ← visit_map (key ∷ keys) rest
    ok (cons_field key v vs)

abbrev pub as_str : RequestJson → Option Text
as_str (string_value value) = some value
as_str _ = none

-- `str::replace` of one character
abbrev replace : ℕ → Text → Text → Text
replace c by [] = []
replace c by (d ∷ s) = let rest = replace c by s in if d == c then by ++ rest else d ∷ rest

unfoldable pub pointer : Text → Text → Text
pointer parent key = parent ++ 0x2f ∷ replace 0x2f (codes "~1") (replace 0x7e (codes "~0") key)

pub record ValidationDetail : Type 0 where
  pub path : Text
  pub code : String
  pub message : String

abbrev pub Details : Type 0
Details = List ValidationDetail

unfoldable pub detail : Details → Text → String → String → Details
detail details path code message =
    if ltb (length details) 100
    then details ++ record { path = path; code = code; message = message } ∷ []
    else details

unfoldable pub invalid_type : Details → Text → Details
unfolding detail
invalid_type details path = detail details path "invalid_type" "The field has an invalid JSON type."
