-- ===== src/Providers/Answers.antt =====
-- What `Adapter::decode` of src/providers.rs answers with.
use rust_enrich.Common.{
  ℕ, ◌≤◌, ◌≡◌, refl, ap, sym, ◌∙◌, true, false, none, some, List, ok, ensure, subst, ok_or, leb→le,
  ◌⊎◌, bind-eq-ok, ensure-ok, ok_or-ok, arith, Bool-cases, inl, inr, is_ok, if◌then◌else◌,
}
use rust_enrich.Common.Clock.{DateTime}
use rust_enrich.Common.Text.{codes, text_eq, text_eq_sound}
use rust_enrich.Domain.Types.{ProviderId, virustotal, abuseipdb, success}
use rust_enrich.Domain.Errors.{invalid_response, response_too_large, provider_request_rejected}
use rust_enrich.Domain.Outcome.{Outcome, Summary, not_found_at}
use rust_enrich.Domain.Indicator.{ValidatedIndicator}
use rust_enrich.Serialization.{new, write_parts, total, write_parts-Fits}
use rust_enrich.Providers.Report.{Codec}
use rust_enrich.Providers.Adapter.{Adapter}
use rust_enrich.Providers.Decode.{
  is_success, summary_byte_limit, decode_missing, decode_error, decode_summary, decode_report,
  decode,
}

module _ {Value : Type 0} (k : Codec Value) where
  -- A report: the summary of the decoded body, within its limit, and the body itself.
  unfoldable pub IsReport : List ℕ → DateTime → Outcome Value → Type 0
  IsReport body now o =
      (raw : Value) × (s : Summary) × (k.from_slice body ≡ some raw)
      × (total (k.summary_parts s) ≤ 16384)
      × (o.status ≡ success)
      × (o.summary ≡ some s)
      × (o.raw ≡ some raw)
      × (o.fetched_at ≡ some now)
      × (o.error ≡ none)

  -- A missing report, which only VirusTotal's documented error establishes.
  unfoldable pub IsMissing : ProviderId → ℕ → List ℕ → DateTime → Outcome Value → Type 0
  IsMissing id status body now o =
      (id ≡ virustotal)
      × (status ≡ 404)
      × (k.read_error body ≡ some (codes "NotFoundError"))
      × (o ≡ not_found_at now)

  decode_report-IsReport :
      (id : ProviderId) (body : List ℕ) (i : ValidatedIndicator) (now : DateTime)
      (o : Outcome Value)
      → decode_report k id body i now ≡ ok o
      → IsReport body now o
  unfolding decode_report IsReport
  decode_report-IsReport id body i now o h =
      let (raw, a, h1) = bind-eq-ok (ok_or (k.from_slice body) invalid_response) _ h in
      let (r, b, h2) = bind-eq-ok (decode_summary k id raw i) _ h1 in
      let (u, c, h3) =
        bind-eq-ok
          (ensure (is_ok (write_parts (new summary_byte_limit) (k.summary_parts r.0)).1)
            response_too_large)
          _ h2 in
      (
        raw,
        r.0,
        ok_or-ok (k.from_slice body) invalid_response a,
        leb→le (total (k.summary_parts r.0)) 16384
            (sym (write_parts-Fits 16384 (k.summary_parts r.0)) ∙ ensure-ok _ response_too_large c),
        cc,
        cc,
        cc,
        cc,
        cc,
      )

  decode_missing-IsMissing :
      (body : List ℕ) (now : DateTime) (o : Outcome Value)
      → decode_missing k body now ≡ ok o
      → (k.read_error body ≡ some (codes "NotFoundError")) × (o ≡ not_found_at now)
  unfolding decode_missing
  decode_missing-IsMissing body now o h =
      let (code, a, h1) = bind-eq-ok (ok_or (k.read_error body) provider_request_rejected) _ h in
      let (u, b, h2) =
        bind-eq-ok (ensure (text_eq code (codes "NotFoundError")) provider_request_rejected) _ h1 in
      (
        ok_or-ok (k.read_error body) provider_request_rejected a
            ∙ ap some (
                text_eq_sound code (codes "NotFoundError")
                  (ensure-ok _ provider_request_rejected b)),
        cc,
      )

  decode_error-IsMissing :
      (id : ProviderId) (status : ℕ) (body : List ℕ) (now : DateTime) (o : Outcome Value)
      → decode_error k id status body now ≡ ok o
      → IsMissing id status body now o
  unfolding decode_error IsMissing
  decode_error-IsMissing abuseipdb status body now o h = ground arith
  decode_error-IsMissing virustotal status body now o h =
      let e : decode_missing k body now ≡ ok o = ground arith in
      let (a, b) = decode_missing-IsMissing body now o e in (refl, ground arith, a, b)

  -- A decoded response is a report or a missing report: a report comes from a 2xx status and holds its
  -- body, a summary of at most 16 KiB, the time and no error; a missing report comes only from
  -- VirusTotal's status 404 with the documented code.
  pub decode_Answers :
      (a : Adapter) (status : ℕ) (body : List ℕ) (i : ValidatedIndicator) (now : DateTime)
      (o : Outcome Value)
      → decode k a status body i now ≡ ok o
      → ((is_success status ≡ true) × IsReport body now o) ⊎ IsMissing a.id status body now o
  unfolding decode
  decode_Answers a status body i now o h = elim (Bool-cases (is_success status)) [
    | inl yes' ↦ inl (yes', decode_report-IsReport a.id body i now o (fst yes' h))
    | inr no' ↦ inr (decode_error-IsMissing a.id status body now o (snd no' h))
  ]
    where
      fst :
          is_success status ≡ true
          → (if is_success status
              then decode_report k a.id body i now
              else decode_error k a.id status body now)
            ≡ ok o
          → decode_report k a.id body i now ≡ ok o
      fst e g =
          subst
            (λ b.
              (if b then decode_report k a.id body i now else decode_error k a.id status body now)
              ≡ ok o)
            e g

      snd :
          is_success status ≡ false
          → (if is_success status
              then decode_report k a.id body i now
              else decode_error k a.id status body now)
            ≡ ok o
          → decode_error k a.id status body now ≡ ok o
      snd e g =
          subst
            (λ b.
              (if b then decode_report k a.id body i now else decode_error k a.id status body now)
              ≡ ok o)
            e g
