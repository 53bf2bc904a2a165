-- ===== src/Domain/Example.antt =====
-- A request for a digest.
use rust_enrich.Common.{none}
use rust_enrich.Common.Text.{Text, codes}
use rust_enrich.Domain.Indicator.{Parsers}
use rust_enrich.Domain.Request.{Json, str, seq, map, no_items, item, no_fields, field}

-- Parsers that read nothing.
abbrev pub parsers : Parsers
parsers = record { parse_ip = λ value. none; parse_url = λ value. none }

abbrev pub md5_text : Text
md5_text = codes "00112233445566778899aabbccddeeff"

-- {"indicators": [{"type": "hash", "value": md5_text}]}
abbrev pub request : Json
request = map (
    field (codes "indicators")
      (seq (
        item
          (map (
            field (codes "type") (str (codes "hash"))
              (field (codes "value") (str md5_text) no_fields)))
          no_items))
      no_fields)
