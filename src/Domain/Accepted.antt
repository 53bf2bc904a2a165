-- ===== src/Domain/Accepted.antt =====
-- What an accepted request of `validate_request` in src/domain.rs is, and what a refused one carries.
use rust_enrich.Common.{
  ◌>>=◌, subst, sym, ensure, ℕ, ◌≤◌, Bool, true, false, not, ◌||◌, ◌≡◌, refl, Option, none, some,
  List, [], ◌∷◌, ltb, ◌==◌, length, if◌then◌else◌, arith, Bool-cases, inl, inr, Result, ok, err,
  bind-eq-ok, ok-inj,
}
use rust_enrich.Common.Text.{Text, codes, text_eq, text_eq_sound}
use rust_enrich.Domain.Types.{ProviderId}
use rust_enrich.Domain.Indicator.{Parsers}
use rust_enrich.Domain.Request.{
  Json, unit, number, bool, str, seq, map, visit_seq, RequestJson, null_value, bool_value,
  number_value, string_value, array_value, object_value, RequestItems, JsonFields, no_fields, field,
  RequestFields, visit_map, deserialize, member, Details, detail, invalid_type, pointer,
}
use rust_enrich.Domain.Item.{require}
use rust_enrich.Domain.Details.{
  Grows, Grows-refl, Grows-trans, detail-eq-nil, detail-Grows, invalid_type-eq-nil,
  invalid_type-Grows, require-Grows, require-eq-nil,
}
use rust_enrich.Domain.ProviderOrder.{distinct, dedup-distinct}
use rust_enrich.Domain.RequestLaws.{
  Frame, on_providers-Frame, on_include_raw-Frame, Adds, scan_items-Adds,
}
use rust_enrich.Domain.Validate.{
  Scan, count, check_batch, on_providers, on_include_raw, scan_items, on_indicators, on_field,
  on_fields, verdict, close_request, validate_decoded, validate_read, ValidatedRequest,
  RequestValidationError, dedup, sort_providers, semantic, invalid_json, validate_json,
  validate_request,
}

-- The indicators of a scan without details: none before the field, a permitted number after it.
Counted : ℕ → Scan → Type 0
Counted max_batch s =
    s.details ≡ []
    → (s.has_indicators ≡ false → length s.indicators ≡ 0)
      × (s.has_indicators ≡ true → 1 ≤ length s.indicators)
      × (length s.indicators ≤ max_batch)

-- The state of the loop over the fields whose earlier keys are `keys`.
Valid : ℕ → List Text → Scan → Type 0
Valid max_batch keys s =
    (length s.details ≤ 100)
    × (distinct s.providers ≡ true)
    × (s.has_indicators ≡ true → member (codes "indicators") keys ≡ true)
    × Counted max_batch s

Frame-Valid :
    (max_batch : ℕ) (key : Text) (keys : List Text) (s t : Scan)
    → Frame s t
    → Valid max_batch keys s
    → Valid max_batch (key ∷ keys) t
unfolding Frame Grows Valid Counted
Frame-Valid max_batch key keys s t ((g, b), i, h, d) (vb, vd, vk, vc) = (
  b vb,
  d vd,
  λ e. ground (arith, vk),
  λ e.
      let (x, y, z) = vc (g e) in
      (λ e. ground (arith, x), λ e. ground (arith, y), ground (arith, z)),
)

check_batch-Adds :
    (max_batch : ℕ) (path : Text) (n : ℕ) (s : Scan)
    → Adds 0 s (check_batch max_batch path n s)
      × ((check_batch max_batch path n s).details ≡ [] → (1 ≤ n) × (n ≤ max_batch))
unfolding Adds check_batch
check_batch-Adds max_batch path n s = elim (Bool-cases (n == 0 || ltb max_batch n)) [
  | inl e ↦ rw (e) (
    (detail-Grows s.details path _ _, refl, refl, λ _. omega arith),
    λ h. detail-eq-nil s.details path _ _ h,
  )
  | inr e ↦
      rw (e)
        ((Grows-refl s.details, refl, refl, λ _. omega arith), λ h. (ground arith, ground arith))
]

-- What the field `indicators` does to a scan that has not met it.
FirstBatch : ℕ → Scan → Scan → Type 0
FirstBatch max_batch s t =
    Grows s.details t.details
    × (t.providers ≡ s.providers)
    × (t.has_indicators ≡ true)
    × (t.details ≡ []
        → length s.indicators ≡ 0
        → (1 ≤ length t.indicators) × (length t.indicators ≤ max_batch))

on_indicators-FirstBatch :
    (p : Parsers) (max_batch : ℕ) (path : Text) (value : RequestJson) (s : Scan)
    → FirstBatch max_batch s (on_indicators p max_batch path value s)
unfolding FirstBatch Adds on_indicators Grows
on_indicators-FirstBatch p max_batch path (array_value items) s =
    let s' : Scan = record s { has_indicators = true } in
    let t = check_batch max_batch path (count items) s' in
    let ((a, b, c, d), f) = check_batch-Adds max_batch path (count items) s' in
    let (a', b', c', d') = scan_items-Adds p path 0 items t in
    (
      Grows-trans s.details t.details (scan_items p path 0 items t).details a a',
      cc,
      cc,
      λ h z.
          let (lo, hi) = f (a'.0 h) in
          (omega (arith, lo, d (a'.0 h), d' h, z), omega (arith, hi, d (a'.0 h), d' h, z)),
    )
on_indicators-FirstBatch p max_batch path null_value s =
    (invalid_type-Grows s.details path, refl, refl, λ h. invalid_type-eq-nil s.details path h)
on_indicators-FirstBatch p max_batch path number_value s =
    (invalid_type-Grows s.details path, refl, refl, λ h. invalid_type-eq-nil s.details path h)
on_indicators-FirstBatch p max_batch path (bool_value _) s =
    (invalid_type-Grows s.details path, refl, refl, λ h. invalid_type-eq-nil s.details path h)
on_indicators-FirstBatch p max_batch path (string_value _) s =
    (invalid_type-Grows s.details path, refl, refl, λ h. invalid_type-eq-nil s.details path h)
on_indicators-FirstBatch p max_batch path (object_value _) s =
    (invalid_type-Grows s.details path, refl, refl, λ h. invalid_type-eq-nil s.details path h)

FirstBatch-Valid :
    (max_batch : ℕ) (keys : List Text) (s t : Scan)
    → FirstBatch max_batch s t
    → Valid max_batch keys s
    → member (codes "indicators") keys ≡ false
    → Valid max_batch (codes "indicators" ∷ keys) t
unfolding FirstBatch Grows Valid Counted
FirstBatch-Valid max_batch keys s t ((g, b), pr, hi, f) (vb, vd, vk, vc) fresh =
    let unseen : s.has_indicators ≡ false = ground (arith, vk) in
    (
      b vb,
      ground (arith, vd),
      λ _. refl,
      λ e.
          let (x, y, z) = vc (g e) in
          let (lo, hi') = f e (x unseen) in (λ e'. ground arith, λ _. lo, hi'),
    )

unknown-Frame :
    (path : Text) (s : Scan)
    → Frame s (record s {
      details = detail s.details path "unknown_field" "This request field is not supported.";
    })
unfolding Frame
unknown-Frame path s = (detail-Grows s.details path _ _, refl, refl, λ h. h)

on_field-Valid :
    (p : Parsers) (max_batch : ℕ) (key : Text) (keys : List Text) (value : RequestJson) (s : Scan)
    → Valid max_batch keys s
    → member key keys ≡ false
    → Valid max_batch (key ∷ keys) (on_field p max_batch key value s)
unfolding on_field
on_field-Valid p max_batch key keys value s v fresh =
    elim (Bool-cases (text_eq key (codes "indicators"))) [
      | inl e ↦ rw (e) (
          subst (λ k. Valid max_batch (k ∷ keys) (on_indicators p max_batch path value s))
            (sym (text_eq_sound key (codes "indicators") e))
            (FirstBatch-Valid max_batch keys s (on_indicators p max_batch path value s)
              (on_indicators-FirstBatch p max_batch path value s) v
              (subst (λ k. member k keys ≡ false) (text_eq_sound key (codes "indicators") e)
                fresh)))
      | inr e ↦ rw (e) (
          Frame-Valid max_batch key keys s _
            (other (text_eq key (codes "providers")) (text_eq key (codes "include_raw"))) v)
    ]
  where
    path : Text
    path = pointer [] key

    other :
        (a b : Bool)
        → Frame s (
            if a
            then on_providers path value s
            else if b
            then on_include_raw path value s
            else record s {
              details =
                  detail s.details path "unknown_field" "This request field is not supported.";
            })
    other true b = on_providers-Frame path value s
    other false true = on_include_raw-Frame path value s
    other false false = unknown-Frame path s

on_fields-Valid :
    (p : Parsers) (max_batch : ℕ) (entries : JsonFields) (keys : List Text) (fields : RequestFields)
    (s : Scan)
    → visit_map keys entries ≡ ok fields
    → Valid max_batch keys s
    → (later : List Text) × Valid max_batch later (on_fields p max_batch fields s)
unfolding on_fields visit_map
on_fields-Valid p max_batch no_fields keys fields s h v =
    (keys, subst (λ fs. Valid max_batch keys (on_fields p max_batch fs s)) (ok-inj h) v)
on_fields-Valid p max_batch (field key value rest) keys fields s h v =
    let (u, e, h1) = bind-eq-ok (ensure (not (member key keys)) tt) _ h in
    let (json, e2, h2) = bind-eq-ok (deserialize value) _ h1 in
    let (fs, e3, h3) = bind-eq-ok (visit_map (key ∷ keys) rest) _ h2 in
    let fresh : member key keys ≡ false = ground (arith, e) in
    let (later, w) =
      on_fields-Valid p max_batch rest (key ∷ keys) fs (on_field p max_batch key json s) e3
        (on_field-Valid p max_batch key keys json s v fresh) in
    (later, subst (λ gs. Valid max_batch later (on_fields p max_batch gs s)) (ok-inj h3) w)

-- What a caller may rely on in an answer: an accepted request has between one and `max_batch` indicators
-- and no provider twice, and a refusal for its content has between one and a hundred details.
pub Answer : ℕ → Result RequestValidationError ValidatedRequest → Type 0
Answer max_batch (ok r) =
    (1 ≤ length r.indicators) × (length r.indicators ≤ max_batch) × (distinct r.providers ≡ true)
Answer max_batch (err invalid_json) = Unit
Answer max_batch (err (semantic details)) = (1 ≤ length details) × (length details ≤ 100)

verdict-Answer :
    (max_batch : ℕ) (s : Scan) (details : Details)
    → (details ≡ [] → (1 ≤ length s.indicators) × (length s.indicators ≤ max_batch))
    → length details ≤ 100
    → distinct s.providers ≡ true
    → Answer max_batch (verdict s details)
unfolding Answer verdict
verdict-Answer max_batch s [] f b d = let (lo, hi) = f refl in (lo, hi, d)
verdict-Answer max_batch s (x ∷ details) f b d = (ground arith, b)

close_request-Answer :
    (max_batch : ℕ) (keys : List Text) (s : Scan)
    → Valid max_batch keys s
    → Answer max_batch (close_request s)
unfolding Valid Counted close_request Grows
close_request-Answer max_batch keys s (vb, vd, vk, vc) =
    verdict-Answer max_batch s (require s.has_indicators (codes "/indicators") s.details)
      (λ h.
        let (seen, e) = require-eq-nil s.has_indicators (codes "/indicators") s.details h in
        let (x, y, z) = vc e in (y seen, z))
      ((require-Grows s.has_indicators (codes "/indicators") s.details).1 vb) vd

abbrev start : List ProviderId → Scan
start enabled = record {
  indicators = [];
  providers = dedup (sort_providers enabled);
  include_raw = false;
  has_indicators = false;
  details = [];
}

start-Valid : (max_batch : ℕ) (enabled : List ProviderId) → Valid max_batch [] (start enabled)
unfolding Valid Counted
start-Valid max_batch enabled =
    (ground arith, dedup-distinct enabled, λ e. cc, λ _. (λ _. refl, λ e. cc, ground arith))

visit_map-Answer :
    (p : Parsers) (max_batch : ℕ) (enabled : List ProviderId) (entries : JsonFields)
    (r : Result {0} Unit RequestFields)
    → visit_map [] entries ≡ r
    → Answer max_batch
        (validate_decoded p max_batch enabled (r >>= λ fields. ok (object_value fields)))
unfolding validate_decoded validate_json Answer
visit_map-Answer p max_batch enabled entries (err e) h = tt
visit_map-Answer p max_batch enabled entries (ok fields) h =
    let (later, v) =
      on_fields-Valid p max_batch entries [] fields (start enabled) h
        (start-Valid max_batch enabled) in
    close_request-Answer max_batch later (on_fields p max_batch fields (start enabled)) v

type-Answer : (max_batch : ℕ) → Answer max_batch (err (semantic (invalid_type [] [])))
unfolding Answer invalid_type detail
type-Answer max_batch = (ground arith, ground arith)

seq-Answer :
    (p : Parsers) (max_batch : ℕ) (enabled : List ProviderId) (r : Result {0} Unit RequestItems)
    → Answer max_batch
        (validate_decoded p max_batch enabled (r >>= λ values. ok (array_value values)))
unfolding validate_decoded validate_json Answer
seq-Answer p max_batch enabled (err e) = tt
seq-Answer p max_batch enabled (ok values) = type-Answer max_batch

validate_read-Answer :
    (p : Parsers) (max_batch : ℕ) (enabled : List ProviderId) (read : Option Json)
    → Answer max_batch (validate_read p max_batch enabled read)
unfolding validate_read validate_decoded validate_json deserialize visit_seq Answer
validate_read-Answer p max_batch enabled none = tt
validate_read-Answer p max_batch enabled (some unit) = type-Answer max_batch
validate_read-Answer p max_batch enabled (some number) = type-Answer max_batch
validate_read-Answer p max_batch enabled (some (bool value)) = type-Answer max_batch
validate_read-Answer p max_batch enabled (some (str value)) = type-Answer max_batch
validate_read-Answer p max_batch enabled (some (seq items)) =
    seq-Answer p max_batch enabled (visit_seq items)
validate_read-Answer p max_batch enabled (some (map entries)) =
    visit_map-Answer p max_batch enabled entries (visit_map [] entries) refl

-- For every reading of the bytes, `validate_request` accepts only a request with between one and
-- `max_batch` indicators and no provider twice, and refuses the content of a request only with
-- between one and a hundred details; the third answer is that the bytes are no JSON.
pub validate_request-Answer :
    (from_slice : List ℕ → Option Json) (p : Parsers) (bytes : List ℕ) (max_batch : ℕ)
    (enabled : List ProviderId)
    → Answer max_batch (validate_request from_slice p bytes max_batch enabled)
unfolding validate_request
validate_request-Answer from_slice p bytes max_batch enabled =
    validate_read-Answer p max_batch enabled (from_slice bytes)
