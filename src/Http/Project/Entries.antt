-- ===== src/Http/Project/Entries.antt =====
-- The entries of `project` in src/http.rs: every result in its place.
use rust_enrich.Common.{
  ℕ, suc, ◌≡◌, refl, sym, ap, ◌∙◌, Bool, Option, some, String, List, [], ◌∷◌, ◌++◌, ok, ok_or,
  bind-eq-ok, ok-inj, ok_or-ok,
}
use rust_enrich.Common.Clock.{DateTime}
use rust_enrich.Common.Text.{Text}
use rust_enrich.Domain.Types.{ProviderId, Status}
use rust_enrich.Domain.Errors.{PublicError, internal_error}
use rust_enrich.Domain.Outcome.{Summary}
use rust_enrich.Domain.Indicator.{InputIndicator, ValidatedIndicator}
use rust_enrich.Enrichment.Lookup.{LookupResult}
use rust_enrich.Http.Project.{
  Writers, Projection, ProviderEntry, ResultItem, choose_raw, entry_of, next_entry, project_row,
  project_rows, start_projection, attach_row, attach_rows,
}

-- What an entry shows of a result, but for the raw report.
pub record View : Type 0 where
  pub status : Status
  pub summary : Option Summary
  pub fetched_at : Option DateTime
  pub provider_updated_at : Option DateTime
  pub hit : Bool
  pub expires_at : Option DateTime
  pub error : Option PublicError

-- What an item shows: its place, its indicator and its entries.
pub record ItemView : Type 0 where
  pub index : ℕ
  pub input : InputIndicator
  pub lookup_value : Text
  pub entries : List (ProviderId × View)

module _ {Value : Type 0} where
  abbrev pub entry_view : ProviderEntry Value → View
  entry_view e = record {
    status = e.status;
    summary = e.summary;
    fetched_at = e.fetched_at;
    provider_updated_at = e.provider_updated_at;
    hit = e.cache.hit;
    expires_at = e.cache.expires_at;
    error = e.error;
  }

  abbrev pub result_view : LookupResult Value → View
  result_view r = record {
    status = r.outcome.status;
    summary = r.outcome.summary;
    fetched_at = r.outcome.fetched_at;
    provider_updated_at = r.outcome.provider_updated_at;
    hit = r.cache_hit;
    expires_at = r.expires_at;
    error = r.outcome.error;
  }

  abbrev pub entry_views : List (ProviderEntry Value) → List (ProviderId × View)
  entry_views [] = []
  entry_views (e ∷ row) = (e.provider, entry_view e) ∷ entry_views row

  -- The items of the response, in order.
  abbrev pub item_views : List (ResultItem Value) → List ItemView
  item_views [] = []
  item_views (item ∷ items) =
      record {
        index = item.index;
        input = item.input;
        lookup_value = item.lookup_value;
        entries = entry_views item.providers;
      }
      ∷ item_views items

  -- The entries of the first results, one for each provider; and what results are left.
  abbrev pub row_views : List ProviderId → List (LookupResult Value) → List (ProviderId × View)
  row_views [] results = []
  row_views (p ∷ providers) [] = []
  row_views (p ∷ providers) (r ∷ results) = (p, result_view r) ∷ row_views providers results

  abbrev pub after_row : List ProviderId → List (LookupResult Value) → List (LookupResult Value)
  after_row [] results = results
  after_row (p ∷ providers) [] = []
  after_row (p ∷ providers) (r ∷ results) = after_row providers results

  -- One item for each indicator, numbered from the given index.
  abbrev pub expected_views :
      List ProviderId → ℕ → List ValidatedIndicator → List (LookupResult Value) → List ItemView
  expected_views providers index [] results = []
  expected_views providers index (i ∷ indicators) results =
      record {
        index = index;
        input = i.input;
        lookup_value = i.lookup_value;
        entries = row_views providers results;
      }
      ∷ expected_views providers (suc index) indicators (after_row providers results)

module _ {Value : Type 0} (w : Writers Value) where
  next_entry-ok :
      (results : List (LookupResult Value)) (r : LookupResult Value × List (LookupResult Value))
      → next_entry w results ≡ some r
      → results ≡ r.0 ∷ r.1
  unfolding next_entry
  next_entry-ok [] r h = cc
  next_entry-ok (x ∷ results) r h = cc

  row-cons :
      (provider : ProviderId) (providers : List ProviderId)
      (entries rest : List (LookupResult Value)) (result : LookupResult Value)
      (reason : Option String) (q r : List (ProviderEntry Value) × Projection Value)
      → entries ≡ result ∷ rest
      → (entry_of w provider result reason ∷ q.0, q.1) ≡ r
      → entry_views q.0 ≡ row_views providers rest
      → q.1.entries ≡ after_row providers rest
      → (entry_views r.0 ≡ row_views (provider ∷ providers) entries)
        × (r.1.entries ≡ after_row (provider ∷ providers) entries)
  unfolding entry_of
  row-cons provider providers entries rest result reason q r first whole same left =
      rw (sym whole, first) (ap (λ vs. (provider, result_view result) ∷ vs) same, left)

  project_row-views :
      (include_raw : Bool) (providers : List ProviderId) (s : Projection Value)
      (r : List (ProviderEntry Value) × Projection Value)
      → project_row w include_raw providers s ≡ ok r
      → (entry_views r.0 ≡ row_views providers s.entries)
        × (r.1.entries ≡ after_row providers s.entries)
  unfolding project_row entry_of
  project_row-views include_raw [] s r h = rw (sym (ok-inj h)) (refl, refl)
  project_row-views include_raw (provider ∷ providers) s r h =
      let (next, a, h1) = bind-eq-ok (ok_or (next_entry w s.entries) internal_error) _ h in
      let (shown, b, h2) = bind-eq-ok (choose_raw w include_raw next.0.outcome.raw s) _ h1 in
      let t = record shown.1 {
        entries = next.1;
        raw_values = shown.1.raw_values ++ shown.0.0 ∷ [];
      } in
      let (q, c, h3) = bind-eq-ok (project_row w include_raw providers t) _ h2 in
      let (same, left) = project_row-views include_raw providers t q c in
      row-cons provider providers s.entries next.1 next.0 shown.0.1 q r
        (next_entry-ok s.entries next (ok_or-ok _ internal_error a)) (ok-inj h3) same left

  project_rows-views :
      (include_raw : Bool) (providers : List ProviderId) (index : ℕ)
      (indicators : List ValidatedIndicator) (s : Projection Value)
      (r : List (ResultItem Value) × Projection Value)
      → project_rows w include_raw providers index indicators s ≡ ok r
      → item_views r.0 ≡ expected_views providers index indicators s.entries
  unfolding project_rows
  project_rows-views include_raw providers index [] s r h = rw (sym (ok-inj h)) refl
  project_rows-views include_raw providers index (i ∷ indicators) s r h =
      let (p, a, h1) = bind-eq-ok (project_row w include_raw providers s) _ h in
      let (q, b, h2) =
        bind-eq-ok (project_rows w include_raw providers (suc index) indicators p.1) _ h1 in
      let (same, left) = project_row-views include_raw providers s p a in
      let rest = project_rows-views include_raw providers (suc index) indicators p.1 q b in
      rw (sym (ok-inj h2), same, rest, left) refl

  attach_row-views :
      (row : List (ProviderEntry Value)) (raws : List (Option Value))
      → entry_views (attach_row w row raws).0 ≡ entry_views row
  unfolding attach_row
  attach_row-views [] raws = refl
  attach_row-views (e ∷ row) [] = refl
  attach_row-views (e ∷ row) (raw ∷ raws) =
      ap (λ vs. (e.provider, entry_view e) ∷ vs) (attach_row-views row raws)

  attach_rows-views :
      (items : List (ResultItem Value)) (raws : List (Option Value))
      → item_views (attach_rows w items raws) ≡ item_views items
  unfolding attach_rows
  attach_rows-views [] raws = refl
  attach_rows-views (item ∷ items) raws =
      rw
        (
          attach_row-views item.providers raws,
          attach_rows-views items (attach_row w item.providers raws).1,
        )
        refl

  -- The response has for each indicator, in order, one item with its index, its input and its lookup value, and in it
  -- one entry for each provider, in order, that shows the next of the results; putting the raw reports in changes none
  -- of that.
  pub project_rows_lem :
      (include_raw : Bool) (providers : List ProviderId) (indicators : List ValidatedIndicator)
      (outcomes : List (LookupResult Value)) (raw_budget : ℕ)
      (r : List (ResultItem Value) × Projection Value)
      → project_rows w include_raw providers 0 indicators (start_projection w outcomes raw_budget)
        ≡ ok r
      → item_views (attach_rows w r.0 r.1.raw_values)
        ≡ expected_views providers 0 indicators outcomes
  unfolding start_projection
  project_rows_lem include_raw providers indicators outcomes raw_budget r h =
      attach_rows-views r.0 r.1.raw_values
      ∙ project_rows-views include_raw providers 0 indicators
          (start_projection w outcomes raw_budget) r h
