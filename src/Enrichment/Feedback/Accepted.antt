-- ===== src/Enrichment/Feedback/Accepted.antt =====
-- The feedback of src/enrichment.rs, as src/storage.rs takes it.
use rust_enrich.Common.{
  ℕ, ◌-◌, ◌^◌, ◌≡◌, refl, true, false, Option, none, some, is_some_and, is_ok, arith, ltb,
}
use rust_enrich.Common.Clock.{Chrono, DateTime, Millis}
use rust_enrich.Common.Text.{Text, codes}
use rust_enrich.Domain.Types.{ProviderId, abuseipdb, virustotal}
use rust_enrich.Storage.Types.{QuotaFeedback}
use rust_enrich.Storage.Quota.{QuotaState, apply_feedback}
use rust_enrich.Enrichment.Feedback.{
  HeaderTools, Headers, number, quota_headers, feedback_of, feedback_from_headers,
}

number-bound :
    (h : HeaderTools) (value : Option Text)
    → is_some_and (number h value) (ltb (2 ^ 63 - 1)) ≡ false
unfolding number
number-bound h none = refl
number-bound h (some value) = ground arith

quota_headers-bound :
    (h : HeaderTools) (id : ProviderId) (headers : Headers)
    → is_some_and (quota_headers h id headers).0 (ltb (2 ^ 63 - 1)) ≡ false
unfolding quota_headers
quota_headers-bound h abuseipdb headers = number-bound h (headers (codes "x-ratelimit-remaining"))
quota_headers-bound h virustotal headers = refl

apply_feedback-ok :
    (c : Chrono) (f : QuotaFeedback) (now : Millis) (unobserved : ℕ) (s : QuotaState)
    → is_some_and f.remaining (ltb (2 ^ 63 - 1)) ≡ false
    → is_ok (apply_feedback c f now unobserved s) ≡ true
unfolding apply_feedback
apply_feedback-ok c f now unobserved s h = ground arith

-- Whatever the headers of a response hold, `apply_feedback` accepts the feedback that is read of them, in every
-- state of the quota.
pub feedback_from_headers-Accepted :
    (h : HeaderTools) (c : Chrono) (id : ProviderId) (status : ℕ) (headers : Headers)
    (at : DateTime) (now : Millis) (unobserved : ℕ) (s : QuotaState)
    → is_ok (apply_feedback c (feedback_from_headers h id status headers at) now unobserved s)
      ≡ true
unfolding feedback_from_headers feedback_of
feedback_from_headers-Accepted h c id status headers at now unobserved s =
    apply_feedback-ok c (feedback_from_headers h id status headers at) now unobserved s
      (quota_headers-bound h id headers)
