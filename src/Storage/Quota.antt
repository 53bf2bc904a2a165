-- ===== src/Storage/Quota.antt =====
-- `QuotaState`, `quota_decision` and their helpers in src/storage.rs. A state is a row of the table
-- `quota_state`; `read` and `write` pass it on, but for the range check of `write`.
pub mod Merge
pub mod Window
pub mod Decision
use rust_enrich.Common.{
  ℕ, ◌+◌, ◌-◌, ◌^◌, min, max, ◌||◌, ◌&&◌, not, Bool, true, false, Option, none, some, String, List,
  [], ◌∷◌, Result, ok, err, ok_or, ensure, ◌>>=◌, ◌>>◌, ltb, leb, ◌==◌, if◌then◌else◌, is_none,
  is_some_and, keep, length, get_elem?,
}
use rust_enrich.Common.Clock.{Chrono, DateTime, Millis, i64_max, saturating_add, div_ceil_1000}
use rust_enrich.Storage.Types.{StorageError, invalid_data, unavailable, QuotaFeedback, QuotaLimits}

pub record QuotaState : Type 0 where
  pub day : String
  pub daily_consumed : ℕ
  pub cooldown_until : Option Millis
  pub cooldown_unknown : Bool
  pub provider_remaining : Option ℕ
  pub provider_reset_at : Option Millis

-- `provider_remaining == Some(0)`
abbrev pub is_exhausted : Option ℕ → Bool
is_exhausted o = is_some_and o λ n. n == 0

expire_reset : Millis → QuotaState → QuotaState
expire_reset now s =
    if is_some_and s.provider_reset_at (λ reset. leb reset now)
    then record s { provider_remaining = none; provider_reset_at = none }
    else s

expire_cooldown : Millis → QuotaState → QuotaState
expire_cooldown now s =
    if is_some_and s.cooldown_until (λ until. leb until now)
    then record s {
      provider_remaining =
          (if is_none s.provider_reset_at && is_exhausted s.provider_remaining
            then none
            else s.provider_remaining);
      cooldown_until = none;
      cooldown_unknown = false;
    }
    else s

unfoldable pub expire_feedback : Millis → QuotaState → QuotaState
unfolding expire_reset expire_cooldown
expire_feedback now s = expire_cooldown now (expire_reset now s)

unfoldable pub ensure_unknown_cooldown : Millis → QuotaState → QuotaState
ensure_unknown_cooldown now s =
    if is_exhausted s.provider_remaining && is_none s.provider_reset_at && is_none s.cooldown_until
    then record s { cooldown_until = some (saturating_add now 60000); cooldown_unknown = true }
    else s

-- the part of `advance_day` behind the check of the saved day
roll_day : Chrono → DateTime → ℕ → QuotaState → QuotaState
roll_day c now saved s =
    if ltb saved (c.date_naive now)
    then record s {
      day = c.show_date (c.date_naive now);
      daily_consumed = 0;
      provider_remaining = (if is_none s.provider_reset_at then none else s.provider_remaining);
    }
    else s

unfoldable pub advance_day : Chrono → DateTime → QuotaState → Result StorageError QuotaState
unfolding roll_day expire_feedback
advance_day c now s = do
  saved ← ok_or (c.parse_date s.day) invalid_data
  ensure (leb saved (c.date_naive now)) invalid_data
  ok (expire_feedback (c.timestamp_millis now) (roll_day c now saved s))

adopt_cooldown : Millis → Bool → QuotaState → QuotaState
adopt_cooldown until unknown s = elim s.cooldown_until [
  | none ↦ record s { cooldown_until = some until; cooldown_unknown = unknown }
  | some old ↦
      if ltb old until
      then record s { cooldown_until = some until; cooldown_unknown = unknown }
      else if old == until
      then record s { cooldown_unknown = s.cooldown_unknown || unknown }
      else s
]

-- the first `if let` of `apply_feedback`
apply_cooldown : Chrono → QuotaFeedback → Millis → QuotaState → QuotaState
unfolding adopt_cooldown
apply_cooldown c f now s = elim f.cooldown_until [
  | none ↦ s
  | some t ↦
      if ltb now (c.timestamp_millis t)
      then adopt_cooldown (c.timestamp_millis t) f.unknown_reset s
      else s
]

-- the second: the remaining count can only decrease within a window
apply_remaining : Option ℕ → ℕ → QuotaState → Result StorageError QuotaState
apply_remaining none unobserved s = ok s
apply_remaining (some remaining) unobserved s =
    if ltb i64_max remaining
    then err invalid_data
    else ok (record s {
      provider_remaining = some (elim s.provider_remaining [
        | none ↦ remaining - unobserved
        | some old ↦ min old remaining
      ]);
    })

-- the third
apply_reset : Option Millis → QuotaState → QuotaState
apply_reset none s = s
apply_reset (some reset) s = record s {
  provider_reset_at = some (elim s.provider_reset_at [ none ↦ reset | some old ↦ max old reset ]);
}

abbrev pub reset_millis : Chrono → QuotaFeedback → Option Millis
reset_millis c f = elim f.reset_at [ none ↦ none | some t ↦ some (c.timestamp_millis t) ]

unfoldable pub apply_feedback :
    Chrono → QuotaFeedback → Millis → ℕ → QuotaState → Result StorageError QuotaState
unfolding expire_feedback apply_cooldown apply_remaining apply_reset ensure_unknown_cooldown
apply_feedback c f now unobserved s =
    let s' = apply_cooldown c f now (expire_feedback now s) in
    if is_some_and (reset_millis c f) (λ reset. leb reset now) then ok s' else do
      s'' ← apply_remaining f.remaining unobserved s'
      ok (ensure_unknown_cooldown now (apply_reset (reset_millis c f) s''))

-- the range checks of `write`, which binds the two counts as `i64`
unfoldable pub write : QuotaState → Result StorageError QuotaState
write s =
    if ltb i64_max s.daily_consumed || is_some_and s.provider_remaining (λ n. ltb i64_max n)
    then err invalid_data
    else ok s

unfoldable pub delay_seconds : Millis → Millis → ℕ
delay_seconds until now = div_ceil_1000 (min (until - now) i64_max)

unfoldable pub next_day_millis : Chrono → DateTime → Result StorageError Millis
next_day_millis c now = do
  midnight ← ok_or (c.next_midnight (c.date_naive now)) invalid_data
  ok (c.timestamp_millis midnight)

-- The times of the group's rows in `quota_attempts`. `SELECT COUNT(*) … reserved_at > ?`:
unfoldable pub count_after : Millis → List Millis → ℕ
count_after from times = length (keep (ltb from) times)

insert_time : Millis → List Millis → List Millis
insert_time t [] = t ∷ []
insert_time t (u ∷ us) = let rest = insert_time t us in if leb t u then t ∷ u ∷ us else u ∷ rest

sort_times : List Millis → List Millis
unfolding insert_time
sort_times [] = []
sort_times (t ∷ ts) = insert_time t (sort_times ts)

-- `SELECT reserved_at … reserved_at > ? ORDER BY reserved_at, id LIMIT 1 OFFSET ?`; no row is an error
unfoldable pub attempt_at : Millis → ℕ → List Millis → Result StorageError Millis
unfolding sort_times
attempt_at from offset times =
    ok_or (get_elem? (sort_times (keep (ltb from) times)) offset) unavailable

pub record QuotaDecision : Type 0 where
  pub blocked : Bool
  pub retry_after : Option ℕ

-- The three locals of `quota_decision`.
pub record Verdict : Type 0 where
  pub delay : ℕ
  pub blocked : Bool
  pub unknown : Bool

abbrev pub start_verdict : Millis → Millis → Verdict
unfolding delay_seconds
start_verdict now actual_now = record {
  delay = delay_seconds now actual_now;
  blocked = ltb actual_now now;
  unknown = false;
}

-- a block whose end is known
block_until : Millis → Millis → Verdict → Verdict
unfolding delay_seconds
block_until until actual_now v = record v {
  delay = max v.delay (delay_seconds until actual_now);
  blocked = true;
}

check_cooldown : QuotaState → Millis → Millis → Verdict → Verdict
unfolding block_until
check_cooldown s now actual_now v = elim s.cooldown_until [
  | none ↦ v
  | some until ↦
      if ltb now until
      then record (block_until until actual_now v) { unknown = s.cooldown_unknown }
      else v
]

check_day :
    Chrono → QuotaLimits → QuotaState → Millis → Millis → Verdict → Result StorageError Verdict
unfolding block_until next_day_millis
check_day c limits s now actual_now v =
    if leb limits.day s.daily_consumed
    then (do
      effective ← ok_or (c.from_timestamp_millis now) invalid_data
      midnight ← next_day_millis c effective
      ok (block_until midnight actual_now v))
    else ok v

check_remaining : QuotaState → Millis → Millis → Verdict → Verdict
unfolding block_until
check_remaining s now actual_now v =
    if is_exhausted s.provider_remaining
    then elim s.provider_reset_at [
      | none ↦ record v { blocked = true; unknown = true }
      | some reset ↦
          if ltb now reset
          then block_until reset actual_now v
          else record v { blocked = true; unknown = true }
    ]
    else v

check_minute : QuotaLimits → List Millis → Millis → Millis → Verdict → Result StorageError Verdict
unfolding block_until count_after attempt_at
check_minute limits times now actual_now v =
    let attempts = count_after (now - 60000) times in
    if ltb 0 limits.minute && leb limits.minute attempts
    then (do
      clears_at ← attempt_at (now - 60000) (attempts - limits.minute) times
      ok (block_until (saturating_add clears_at 60000) actual_now v))
    else ok v

conclude : Verdict → QuotaDecision
conclude v = record {
  blocked = v.blocked;
  retry_after = (if v.blocked && not v.unknown then some (max v.delay 1) else none);
}

unfoldable pub quota_decision :
    Chrono
    → QuotaLimits
    → List Millis
    → QuotaState
    → Millis
    → Millis
    → Result StorageError QuotaDecision
unfolding check_cooldown check_day check_remaining check_minute conclude
quota_decision c limits times s now actual_now = do
  v ←
      check_day c limits s now actual_now
        (check_cooldown s now actual_now (start_verdict now actual_now))
  v' ← check_minute limits times now actual_now (check_remaining s now actual_now v)
  ok (conclude v')
