-- ===== src/Domain/Details.antt =====
-- The details that validation collects only grow, and stop at one hundred.
use rust_enrich.Common.{
  ◌≤◌, Bool, true, false, ◌≡◌, refl, String, [], ◌∷◌, length, length-append, arith,
}
use rust_enrich.Common.Text.{Text}
use rust_enrich.Domain.Request.{Details, detail, invalid_type}
use rust_enrich.Domain.Item.{require}

-- One list of details follows another: it is empty only if the earlier one is, and keeps the bound.
unfoldable pub Grows : Details → Details → Type 0
Grows d e = (e ≡ [] → d ≡ []) × (length d ≤ 100 → length e ≤ 100)

pub Grows-refl : (d : Details) → Grows d d
unfolding Grows
Grows-refl d = (λ h. h, λ h. h)

pub Grows-trans : (d e f : Details) → Grows d e → Grows e f → Grows d f
unfolding Grows
Grows-trans d e f (a, b) (a', b') = (λ h. a (a' h), λ h. b' (b h))

-- A list on which `detail` was called is not empty.
pub detail-eq-nil :
    {A : Type 0} (d : Details) (path : Text) (code message : String)
    → detail d path code message ≡ []
    → A
unfolding detail
detail-eq-nil [] path code message h = ground arith
detail-eq-nil (x ∷ d) path code message h = ground arith

pub detail-bound :
    (d : Details) (path : Text) (code message : String)
    → length d ≤ 100
    → length (detail d path code message) ≤ 100
unfolding detail
detail-bound d path code message h =
    ground (arith, length-append d (record { path = path; code = code; message = message } ∷ []))

pub detail-Grows :
    (d : Details) (path : Text) (code message : String) → Grows d (detail d path code message)
unfolding Grows
detail-Grows d path code message =
    (λ h. detail-eq-nil d path code message h, λ h. detail-bound d path code message h)

pub invalid_type-eq-nil : {A : Type 0} (d : Details) (path : Text) → invalid_type d path ≡ [] → A
unfolding invalid_type
invalid_type-eq-nil d path h = detail-eq-nil d path _ _ h

pub invalid_type-Grows : (d : Details) (path : Text) → Grows d (invalid_type d path)
unfolding invalid_type
invalid_type-Grows d path = detail-Grows d path _ _

pub require-Grows : (present : Bool) (path : Text) (d : Details) → Grows d (require present path d)
unfolding require
require-Grows true path d = Grows-refl d
require-Grows false path d = detail-Grows d path _ _

-- Without details afterwards, the field was there and there were none before.
pub require-eq-nil :
    (present : Bool) (path : Text) (d : Details)
    → require present path d ≡ []
    → (present ≡ true) × (d ≡ [])
unfolding require
require-eq-nil true path d h = (refl, h)
require-eq-nil false path d h = detail-eq-nil d path _ _ h
