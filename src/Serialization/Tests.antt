-- ===== src/Serialization/Tests.antt =====
-- The theorem on src/serialization.rs at a concrete input.
use rust_enrich.Common.{◌≡◌, [], ◌∷◌, leb, is_ok}
use rust_enrich.Serialization.{new, write_parts, total, write_parts-Fits}

write_parts-Fits_example :
    is_ok (write_parts (new 3) ((1 ∷ 2 ∷ []) ∷ (3 ∷ 4 ∷ []) ∷ [])).1
    ≡ leb (total ((1 ∷ 2 ∷ []) ∷ (3 ∷ 4 ∷ []) ∷ [])) 3
write_parts-Fits_example = write_parts-Fits 3 ((1 ∷ 2 ∷ []) ∷ (3 ∷ 4 ∷ []) ∷ [])
