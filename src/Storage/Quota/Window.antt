-- ===== src/Storage/Quota/Window.antt =====
-- What the transitions of a `QuotaState` keep: the day's count, and a conservative remaining count.
use rust_enrich.Common.{ℕ, ◌≤◌, ◌≡◌, some, ok, Option-cases, inl, inr, arith, ltb, if◌then◌else◌}
use rust_enrich.Common.Clock.{Chrono, IsChrono, DateTime, NaiveDate, Millis}
use rust_enrich.Storage.Types.{QuotaFeedback}
use rust_enrich.Storage.Quota.{
  QuotaState, advance_day, apply_feedback, expire_feedback, ensure_unknown_cooldown, roll_day,
  apply_cooldown,
}

-- What a day's account depends on is left alone.
abbrev pub SameDay : QuotaState → QuotaState → Type 0
SameDay s t = (t.day ≡ s.day) × (t.daily_consumed ≡ s.daily_consumed)

pub expire_feedback-SameDay : (now : Millis) (s : QuotaState) → SameDay s (expire_feedback now s)
unfolding expire_feedback
expire_feedback-SameDay now s = ground arith

pub ensure_unknown_cooldown-SameDay :
    (now : Millis) (s : QuotaState) → SameDay s (ensure_unknown_cooldown now s)
unfolding ensure_unknown_cooldown
ensure_unknown_cooldown-SameDay now s = ground arith

module _ (c : Chrono) where
  apply_cooldown-SameDay :
      (f : QuotaFeedback) (now : Millis) (s : QuotaState) → SameDay s (apply_cooldown c f now s)
  unfolding apply_cooldown
  apply_cooldown-SameDay f now s = ground arith

  -- Feedback never touches the day or its count.
  pub apply_feedback-SameDay :
      (f : QuotaFeedback) (now : Millis) (unobserved : ℕ) (s t : QuotaState)
      → apply_feedback c f now unobserved s ≡ ok t
      → SameDay s t
  unfolding apply_feedback
  apply_feedback-SameDay f now unobserved s t h = ground arith

-- The count that a new day starts from, or that of the day that goes on.
abbrev pub carried : NaiveDate → NaiveDate → ℕ → ℕ
carried saved today consumed = if ltb saved today then 0 else consumed

module _ (c : Chrono) (ic : IsChrono c) where
  -- A day is entered only forwards; the count starts again only there.
  pub advance_day_lem :
      (now : DateTime) (s t : QuotaState)
      → advance_day c now s ≡ ok t
      → (saved : NaiveDate) × (c.parse_date s.day ≡ some saved)
        × (saved ≤ c.date_naive now)
        × (c.parse_date t.day ≡ some (c.date_naive now))
        × (t.daily_consumed ≡ carried saved (c.date_naive now) s.daily_consumed)
  unfolding advance_day roll_day
  advance_day_lem now s t h = elim (Option-cases (c.parse_date s.day)) [
    | inl bad ↦ ground arith
    | inr (saved, e) ↦
        (saved, e, ground arith, ground (arith, ic.parse-show (c.date_naive now)), ground arith)
  ]
