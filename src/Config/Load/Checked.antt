-- ===== src/Config/Load/Checked.antt =====
-- What `from_map` of src/config.rs accepts.
use rust_enrich.Common.{
  ◌≤◌, ◌≡◌, refl, Bool, true, false, not, ok, ensure, any, bind-eq-ok, ensure-ok, ok-inj, subst,
}
use rust_enrich.Config.{Platform, validate}
use rust_enrich.Config.Order.{validate-Order}
use rust_enrich.Config.Load.{Values, Reader, Loaded, is_unknown, read_config, from_map}

-- The configuration is the one that is read, it passes `validate`, no setting of the map is unknown, and the timeouts are nested.
unfoldable pub IsChecked : Platform → Reader → Values → Loaded → Type 0
IsChecked m f values l =
    (any is_unknown values ≡ false)
    × (read_config m f values ≡ ok l)
    × (validate m l.config ≡ ok tt)
    × (l.config.connect_timeout ≤ l.config.provider_timeout)
    × (l.config.provider_timeout ≤ l.config.lookup_timeout)
    × (l.config.lookup_timeout ≤ l.config.request_timeout)
    × (l.config.storage_timeout ≤ l.config.lookup_timeout)

checked :
    (m : Platform) (f : Reader) (values : Values) (l : Loaded)
    → any is_unknown values ≡ false
    → read_config m f values ≡ ok l
    → validate m l.config ≡ ok tt
    → IsChecked m f values l
unfolding IsChecked
checked m f values l u r v = let (a, b, c, d) = validate-Order m l.config v in (u, r, v, a, b, c, d)

not-true : (b : Bool) → not b ≡ true → b ≡ false
not-true true h = cc
not-true false h = refl

-- A configuration that `from_map` returns was read of settings that are all known, and passes `validate`; so its timeouts are
-- nested: connection within provider within lookup within request, and storage within lookup.
pub from_map-IsChecked :
    (m : Platform) (f : Reader) (values : Values) (l : Loaded)
    → from_map m f values ≡ ok l
    → IsChecked m f values l
unfolding from_map
from_map-IsChecked m f values l h =
    let (u, known, h1) = bind-eq-ok (ensure (not (any is_unknown values)) _) _ h in
    let (read, r, h2) = bind-eq-ok (read_config m f values) _ h1 in
    let (v, valid, h3) = bind-eq-ok (validate m read.config) _ h2 in
    subst (IsChecked m f values) (ok-inj h3)
      (checked m f values read (not-true _ (ensure-ok _ _ known)) r valid)
