-- ===== src/Common/Clock.antt =====
-- Time, as src/clock.rs and chrono give it. A `DateTime<Utc>` is a number that orders the moments.
-- An `i64` of milliseconds is kept as its distance from `i64::MIN`, so that the order is that of ℕ,
-- a subtraction that saturates at `i64::MIN` is the subtraction of ℕ, and the sums of a time and a
-- duration are the source's. chrono itself is a parameter.
use rust_enrich.Common.{
  ℕ, ◌+◌, ◌-◌, ◌/◌, ◌^◌, ◌≤◌, ◌<◌, min, ◌≡◌, Option, none, some, String, ltb, if◌then◌else◌,
}

abbrev pub DateTime : Type 0
DateTime = ℕ

abbrev pub Millis : Type 0
Millis = ℕ

-- The calendar day of a moment, numbered.
abbrev pub NaiveDate : Type 0
NaiveDate = ℕ

-- What the code calls of chrono.
pub record Chrono : Type 0 where
  pub timestamp_millis : DateTime → Millis
  pub from_timestamp_millis : Millis → Option DateTime
  pub date_naive : DateTime → NaiveDate
  -- `succ_opt`, `and_hms_opt(0, 0, 0)` and `and_utc`
  pub next_midnight : NaiveDate → Option DateTime
  -- `to_string`, and `parse_from_str` with "%Y-%m-%d"
  pub show_date : NaiveDate → String
  pub parse_date : String → Option NaiveDate

-- What chrono documents of them.
pub record IsChrono (c : Chrono) : Type 0 where
  pub parse-show : (d : NaiveDate) → c.parse_date (c.show_date d) ≡ some d
  pub from-millis :
      (m : Millis) (t : DateTime) → c.from_timestamp_millis m ≡ some t → c.timestamp_millis t ≡ m
  -- the day is that of the moment's millisecond, and later moments have no earlier day
  pub day_mono :
      (t u : DateTime)
      → c.timestamp_millis t ≤ c.timestamp_millis u
      → c.date_naive t ≤ c.date_naive u
  pub midnight_later :
      (t m : DateTime)
      → c.next_midnight (c.date_naive t) ≡ some m
      → c.timestamp_millis t < c.timestamp_millis m

-- `i64::MAX` as a duration, and as a time counted from `i64::MIN`.
abbrev pub i64_max : ℕ
i64_max = 2 ^ 63 - 1

abbrev pub last_millis : Millis
last_millis = 2 ^ 64 - 1

-- `t.saturating_add(d)` for a duration d.
abbrev pub saturating_add : Millis → ℕ → Millis
saturating_add t d = min (t + d) last_millis

-- `t.checked_add(d)` for a duration d.
abbrev pub checked_add : Millis → ℕ → Option Millis
checked_add t d = if ltb last_millis (t + d) then none else some (t + d)

-- `n.div_ceil(1000)`
abbrev pub div_ceil_1000 : ℕ → ℕ
div_ceil_1000 n = (n + 999) / 1000
