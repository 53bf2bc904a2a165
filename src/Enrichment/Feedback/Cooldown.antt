-- ===== src/Enrichment/Feedback/Cooldown.antt =====
-- How long a provider is left alone after a response: `feedback_from_headers` of src/enrichment.rs.
use rust_enrich.Common.{
  ℕ, ◌≡◌, Bool, true, false, ◌&&◌, ◌||◌, Option, none, some, ◌==◌, leb, is_some, is_none,
  is_some_and, if◌then◌else◌, arith,
}
use rust_enrich.Common.Clock.{DateTime}
use rust_enrich.Common.Text.{codes}
use rust_enrich.Domain.Types.{ProviderId}
use rust_enrich.Storage.Types.{QuotaFeedback}
use rust_enrich.Config.{Duration}
use rust_enrich.Enrichment.Feedback.{
  HeaderTools, Headers, from_secs, quota_headers, known_until, feedback_of, parse_retry_after,
  feedback_from_headers,
}

-- The second time is there, and no earlier, when the first is there.
unfoldable pub reaches : Option DateTime → Option DateTime → Bool
reaches none cooldown = true
reaches (some t) cooldown = is_some_and cooldown (leb t)

-- The moment that a Retry-After asks to wait for, if it is a time.
abbrev pub asked_for : HeaderTools → DateTime → Option Duration → Option DateTime
asked_for h now retry = elim retry [ none ↦ none | some duration ↦ h.checked_add now duration ]

-- What a cooldown owes to the two headers and the status.
unfoldable pub IsLongEnough : HeaderTools → ℕ → DateTime → Option Duration → QuotaFeedback → Type 0
IsLongEnough h status now retry f =
    (reaches (asked_for h now retry) f.cooldown_until ≡ true)
    × (reaches (if status == 429 || is_some_and f.remaining (λ n. n == 0) then f.reset_at else none)
          f.cooldown_until
        ≡ true)
    × ((status == 429 && is_none f.cooldown_until && is_some (h.checked_add now (from_secs 60)))
        ≡ false)

feedback_of-reaches :
    (h : HeaderTools) (status : ℕ) (now : DateTime) (retry : Option Duration) (remaining : Option ℕ)
    (reset_at : Option DateTime)
    → IsLongEnough h status now retry (
        feedback_of h status now
          (known_until h status now retry remaining reset_at)
          remaining
          reset_at)
unfolding IsLongEnough reaches feedback_of known_until
feedback_of-reaches h status now retry remaining reset_at =
    (ground arith, ground arith, ground arith)

-- The cooldown that is read of a response reaches the moment of its Retry-After, if it has one that is a time. It reaches
-- the reset that the response names, if the status is 429 or nothing remains. After a 429 there is a
-- cooldown, unless a minute from now is no time.
pub feedback_from_headers-IsLongEnough :
    (h : HeaderTools) (id : ProviderId) (status : ℕ) (headers : Headers) (now : DateTime)
    → IsLongEnough h status now
        (parse_retry_after h (headers (codes "retry-after")) now)
        (feedback_from_headers h id status headers now)
unfolding feedback_from_headers
feedback_from_headers-IsLongEnough h id status headers now =
    feedback_of-reaches h status now (parse_retry_after h (headers (codes "retry-after")) now)
      (quota_headers h id headers).0 (quota_headers h id headers).1
