-- ===== src/Enrichment/Feedback.antt =====
-- `parse_retry_after`, `seconds_until` and `feedback_from_headers` of src/enrichment.rs. chrono, httpdate and
-- the headers of a response are parameters; a `Duration` is a number of nanoseconds.
pub mod Accepted
pub mod Cooldown
use rust_enrich.Common.{
  ℕ, ◌+◌, ◌-◌, ◌*◌, ◌/◌, ◌^◌, max, Bool, true, false, ◌&&◌, ◌||◌, Option, none, some, List, ◌==◌,
  leb, is_none, is_some_and, if◌then◌else◌,
}
use rust_enrich.Common.Clock.{DateTime, div_ceil_1000}
use rust_enrich.Common.Text.{Text, codes}
use rust_enrich.Common.Digits.{is_digits, parse_unsigned}
use rust_enrich.Domain.Types.{ProviderId, abuseipdb, virustotal}
use rust_enrich.Storage.Types.{QuotaFeedback}
use rust_enrich.Storage.Quota.{is_exhausted}
use rust_enrich.Config.{Duration}

-- `Duration::from_secs`
abbrev pub from_secs : ℕ → Duration
from_secs n = n * 1000000000

-- `parse_http_date`; `(until - now).num_milliseconds().max(0)`; `from_std` with `checked_add_signed`;
-- `DateTime::from_timestamp(_, 0)` of a number of seconds that is not negative
pub record HeaderTools : Type 0 where
  pub parse_http_date : Text → Option DateTime
  pub millis_until : DateTime → DateTime → ℕ
  pub checked_add : DateTime → Duration → Option DateTime
  pub from_timestamp : ℕ → Option DateTime

-- `headers.get(name).and_then(|v| v.to_str().ok())`
abbrev pub Headers : Type 0
Headers = Text → Option Text

abbrev pub u64_max : ℕ
u64_max = 2 ^ 64 - 1

module _ (h : HeaderTools) where
  unfoldable pub seconds_until : DateTime → DateTime → ℕ
  seconds_until until now = div_ceil_1000 (h.millis_until until now)

  -- the date form of the header
  unfoldable pub retry_date : DateTime → Option DateTime → Option Duration
  unfolding seconds_until
  retry_date now none = none
  retry_date now (some date) = some (from_secs (seconds_until date now))

  abbrev retry_seconds : Option ℕ → Option Duration
  retry_seconds none = none
  retry_seconds (some n) = some (from_secs n)

  unfoldable pub parse_retry_after : Option Text → DateTime → Option Duration
  unfolding retry_date
  parse_retry_after none now = none
  parse_retry_after (some value) now =
      if is_digits value
      then retry_seconds (parse_unsigned u64_max value)
      else retry_date now (h.parse_http_date value)

  -- the closure `number`
  unfoldable pub number : Option Text → Option ℕ
  number none = none
  number (some value) = if is_digits value then small (parse_unsigned u64_max value) else none
    where
      small : Option ℕ → Option ℕ
      small none = none
      small (some n) = if leb n (2 ^ 63 - 1) then some n else none

  abbrev reset_time : Option ℕ → Option DateTime
  reset_time none = none
  reset_time (some seconds) = h.from_timestamp seconds

  -- `(remaining, reset_at)`
  unfoldable pub quota_headers : ProviderId → Headers → Option ℕ × Option DateTime
  unfolding number
  quota_headers abuseipdb headers = (
    number (headers (codes "x-ratelimit-remaining")),
    reset_time (number (headers (codes "x-ratelimit-reset"))),
  )
  quota_headers virustotal headers = (none, none)

  abbrev pub later_of : Option DateTime → Option DateTime → Option DateTime
  later_of none b = b
  later_of (some a) none = some a
  later_of (some a) (some b) = some (max a b)

  abbrev pub retry_until : DateTime → Option Duration → Option DateTime
  retry_until now none = none
  retry_until now (some duration) = h.checked_add now duration

  -- `known`
  unfoldable pub known_until :
      ℕ → DateTime → Option Duration → Option ℕ → Option DateTime → Option DateTime
  known_until status now retry remaining reset_at =
      later_of (retry_until now retry)
        (if status == 429 || is_exhausted remaining then reset_at else none)

  -- `known.or_else(…)`
  abbrev or_minute : DateTime → Option DateTime → Option DateTime
  or_minute now (some until) = some until
  or_minute now none = h.checked_add now (from_secs 60)

  unfoldable pub feedback_of :
      ℕ → DateTime → Option DateTime → Option ℕ → Option DateTime → QuotaFeedback
  feedback_of status now known remaining reset_at = record {
    cooldown_until = (if status == 429 then or_minute now known else known);
    unknown_reset = status == 429 && is_none known;
    remaining = remaining;
    reset_at = reset_at;
  }

  unfoldable pub feedback_from_headers : ProviderId → ℕ → Headers → DateTime → QuotaFeedback
  unfolding parse_retry_after quota_headers known_until feedback_of
  feedback_from_headers id status headers now =
      let retry = parse_retry_after (headers (codes "retry-after")) now in
      let quota = quota_headers id headers in
      feedback_of status now (known_until status now retry quota.0 quota.1) quota.0 quota.1
