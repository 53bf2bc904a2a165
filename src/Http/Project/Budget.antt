-- ===== src/Http/Project/Budget.antt =====
-- The budgets of `project` in src/http.rs.
use rust_enrich.Common.{
  ℕ, suc, ◌+◌, ◌*◌, ◌-◌, ◌^◌, ◌≤◌, ◌≡◌, refl, ap, subst, min, Bool, true, false, Option, none, some,
  List, [], ◌∷◌, ◌++◌, length, Result, ok, err, ok_or, ensure, leb, bind-eq-ok, ok-inj, arith,
  Bool-cases, inl, inr,
}
use rust_enrich.Common.Text.{Text}
use rust_enrich.Domain.Types.{ProviderId}
use rust_enrich.Domain.Errors.{response_too_large, internal_error}
use rust_enrich.Domain.Indicator.{ValidatedIndicator}
use rust_enrich.Domain.Validate.{ValidatedRequest}
use rust_enrich.Enrichment.Lookup.{LookupResult}
use rust_enrich.Serialization.{
  LimitedWriter, new, write_parts, write_parts-bound, count_parts, count_parts_lem, total,
}
use rust_enrich.Http.Project.{
  Writers, write_envelope, Projection, ProviderEntry, ResultItem, Shown, counted, spend, choose_raw,
  next_entry, project_row, project_rows, start_projection, attach_rows, written_bytes,
  envelope_limit, project,
}

module _ {Value : Type 0} (w : Writers Value) where
  -- The bytes of the raw reports that are included.
  abbrev pub raw_bytes : List (Option Value) → ℕ
  raw_bytes [] = 0
  raw_bytes (none ∷ raws) = raw_bytes raws
  raw_bytes (some value ∷ raws) = total (w.raw_parts value) + raw_bytes raws

  raw_bytes-snoc :
      (raws : List (Option Value)) (raw : Option Value)
      → raw_bytes (raws ++ raw ∷ []) ≡ raw_bytes raws + raw_bytes (raw ∷ [])
  raw_bytes-snoc [] none = omega arith
  raw_bytes-snoc [] (some v) = omega arith
  raw_bytes-snoc (none ∷ raws) raw = raw_bytes-snoc raws raw
  raw_bytes-snoc (some v ∷ raws) raw = omega (arith, raw_bytes-snoc raws raw)

  counted-ok : (r : Result {0} Unit ℕ) (n : ℕ) → counted r ≡ ok n → r ≡ ok n
  counted-ok (ok m) n h = cc
  counted-ok (err e) n h = cc

  -- Between two rounds, what is included and what is left make up the budget.
  Balanced : ℕ → Projection Value → Type 0
  Balanced budget s = raw_bytes s.raw_values + s.remaining ≡ budget

  spend-Balanced :
      (s : Projection Value) (value : Value) (n : ℕ)
      → n ≡ total (w.raw_parts value)
      → (raw_bytes ((spend w s value n).0.0 ∷ []) + (spend w s value n).1.remaining ≡ s.remaining)
        × ((spend w s value n).1.raw_values ≡ s.raw_values)
  unfolding spend
  spend-Balanced s value n e = elim (Bool-cases (leb n s.remaining)) [
    | inl fits ↦ rw (fits) (ground (arith, fits, e), refl)
    | inr over ↦ rw (over) (omega arith, refl)
  ]

  choose_raw-Balanced :
      (include_raw : Bool) (raw : Option Value) (s : Projection Value)
      (r : Shown Value × Projection Value)
      → choose_raw w include_raw raw s ≡ ok r
      → (raw_bytes (r.0.0 ∷ []) + r.1.remaining ≡ s.remaining) × (r.1.raw_values ≡ s.raw_values)
  unfolding choose_raw
  choose_raw-Balanced false raw s r h = ground arith
  choose_raw-Balanced true none s r h = ground arith
  choose_raw-Balanced true (some value) s r h =
      let (n, a, b) = bind-eq-ok (counted (count_parts 0 (w.raw_parts value))) _ h in
      let size = count_parts_lem 0 (w.raw_parts value) n (counted-ok _ n a) in
      subst
        (λ (q : Shown Value × Projection Value).
          (raw_bytes (q.0.0 ∷ []) + q.1.remaining ≡ s.remaining) × (q.1.raw_values ≡ s.raw_values))
        (ok-inj b) (spend-Balanced s value n (omega (arith, size)))

  shown-Balanced :
      (budget : ℕ) (s t : Projection Value) (raw : Option Value) (rest : List (LookupResult Value))
      → Balanced budget s
      → raw_bytes (raw ∷ []) + t.remaining ≡ s.remaining
      → t.raw_values ≡ s.raw_values
      → Balanced budget (record t { entries = rest; raw_values = t.raw_values ++ raw ∷ [] })
  unfolding Balanced
  shown-Balanced budget s t raw rest v left same =
      omega (arith, raw_bytes-snoc t.raw_values raw, ap raw_bytes same, left, v)

  project_row-Balanced :
      (include_raw : Bool) (providers : List ProviderId) (budget : ℕ) (s : Projection Value)
      (r : List (ProviderEntry Value) × Projection Value)
      → project_row w include_raw providers s ≡ ok r
      → Balanced budget s
      → Balanced budget r.1
  unfolding project_row
  project_row-Balanced include_raw [] budget s r h v =
      subst (λ (q : List (ProviderEntry Value) × Projection Value). Balanced budget q.1) (ok-inj h)
        v
  project_row-Balanced include_raw (provider ∷ providers) budget s r h v =
      let (next, a, h1) = bind-eq-ok (ok_or (next_entry w s.entries) internal_error) _ h in
      let (shown, b, h2) = bind-eq-ok (choose_raw w include_raw next.0.outcome.raw s) _ h1 in
      let t = record shown.1 {
        entries = next.1;
        raw_values = shown.1.raw_values ++ shown.0.0 ∷ [];
      } in
      let (q, c, h3) = bind-eq-ok (project_row w include_raw providers t) _ h2 in
      let (left, same) = choose_raw-Balanced include_raw next.0.outcome.raw s shown b in
      subst (λ (q : List (ProviderEntry Value) × Projection Value). Balanced budget q.1) (ok-inj h3)
        (project_row-Balanced include_raw providers budget t q c
          (shown-Balanced budget s shown.1 shown.0.0 next.1 v left same))

  project_rows-Balanced :
      (include_raw : Bool) (providers : List ProviderId) (budget index : ℕ)
      (indicators : List ValidatedIndicator) (s : Projection Value)
      (r : List (ResultItem Value) × Projection Value)
      → project_rows w include_raw providers index indicators s ≡ ok r
      → Balanced budget s
      → Balanced budget r.1
  unfolding project_rows
  project_rows-Balanced include_raw providers budget index [] s r h v =
      subst (λ (q : List (ResultItem Value) × Projection Value). Balanced budget q.1) (ok-inj h) v
  project_rows-Balanced include_raw providers budget index (i ∷ indicators) s r h v =
      let (p, a, h1) = bind-eq-ok (project_row w include_raw providers s) _ h in
      let (q, b, h2) =
        bind-eq-ok (project_rows w include_raw providers (suc index) indicators p.1) _ h1 in
      subst (λ (q : List (ResultItem Value) × Projection Value). Balanced budget q.1) (ok-inj h2)
        (project_rows-Balanced include_raw providers budget (suc index) indicators p.1 q b
          (project_row-Balanced include_raw providers budget s p a v))

  -- The raw reports that are included take no more bytes together than the budget.
  pub project_rows-budget :
      (include_raw : Bool) (providers : List ProviderId) (indicators : List ValidatedIndicator)
      (outcomes : List (LookupResult Value)) (budget : ℕ)
      (r : List (ResultItem Value) × Projection Value)
      → project_rows w include_raw providers 0 indicators (start_projection w outcomes budget)
        ≡ ok r
      → raw_bytes r.1.raw_values ≤ budget
  unfolding start_projection Balanced
  project_rows-budget include_raw providers indicators outcomes budget r h =
      let v =
        project_rows-Balanced include_raw providers budget 0 indicators
          (start_projection w outcomes budget) r h (omega arith) in
      omega (arith, v)

  written_bytes-ok :
      (x : LimitedWriter × Result {0} Unit ℕ) (bytes : List ℕ)
      → written_bytes w x ≡ ok bytes
      → bytes ≡ x.0.bytes
  written_bytes-ok (out, ok n) bytes h = cc
  written_bytes-ok (out, err e) bytes h = cc

  write_envelope-bound :
      (n selected raw_budget : ℕ) (parts : List (List ℕ)) (bytes : List ℕ)
      → write_envelope w n selected raw_budget parts ≡ ok bytes
      → length bytes ≤ 1048576 + raw_budget
  unfolding write_envelope
  write_envelope-bound n selected raw_budget parts bytes h =
      let limit = min (1048576 + raw_budget) (2 ^ 64 - 1) in
      let (u, c, e) =
        bind-eq-ok
          (ensure (leb (min (n + min (selected * 7) (2 ^ 64 - 1)) (2 ^ 64 - 1)) envelope_limit)
            response_too_large)
          _ h in
      let same = written_bytes-ok (write_parts (new limit) parts) bytes e in
      omega (arith, ap length same, write_parts-bound limit parts)

  -- A response holds at most a megabyte and the budget of raw reports.
  pub project-bound :
      (id : Text) (request : ValidatedRequest) (outcomes : List (LookupResult Value))
      (raw_budget : ℕ) (bytes : List ℕ)
      → project w id request outcomes raw_budget ≡ ok bytes
      → length bytes ≤ 1048576 + raw_budget
  unfolding project
  project-bound id request outcomes raw_budget bytes h =
      let (r, a, h1) =
        bind-eq-ok
          (project_rows w request.include_raw request.providers 0 request.indicators
            (start_projection w outcomes raw_budget))
          _ h in
      let (n, b, h2) =
        bind-eq-ok
          (counted (count_parts 0 (w.envelope_parts (record { request_id = id; results = r.0 })))) _
          h1 in
      write_envelope-bound n r.1.selected raw_budget
        (w.envelope_parts (record { request_id = id; results = attach_rows w r.0 r.1.raw_values }))
        bytes h2
