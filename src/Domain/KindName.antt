-- ===== src/Domain/KindName.antt =====
-- `IndicatorKind::as_str` and `IndicatorKind::parse` of src/domain.rs.
use rust_enrich.Common.{◌≡◌, refl, Option, none, some, if◌then◌else◌}
use rust_enrich.Common.Text.{Text, codes, text_eq}
use rust_enrich.Domain.Types.{IndicatorKind, ip, url, hash}

unfoldable pub as_str : IndicatorKind → Text
as_str ip = codes "ip"
as_str url = codes "url"
as_str hash = codes "hash"

unfoldable pub parse : Text → Option IndicatorKind
parse value =
    if text_eq value (codes "ip")
    then some ip
    else if text_eq value (codes "url")
    then some url
    else if text_eq value (codes "hash")
    then some hash
    else none

-- A kind's name parses back to the kind.
pub parse-as_str : (kind : IndicatorKind) → parse (as_str kind) ≡ some kind
unfolding parse as_str
parse-as_str ip = refl
parse-as_str url = refl
parse-as_str hash = refl
