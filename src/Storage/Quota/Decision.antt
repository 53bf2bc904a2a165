-- ===== src/Storage/Quota/Decision.antt =====
-- What `quota_decision` decides: when it blocks, and what it promises of the delay.
use rust_enrich.Common.{
  ℕ, ◌+◌, ◌-◌, ◌*◌, ◌≤◌, ◌<◌, ◌≡◌, ◌&&◌, ◌||◌, Bool, true, false, some, List, Result, ok, arith,
  ltb, leb, sym, ◌∙◌, bind-eq-ok, Option-cases, inl, inr, max, is_some_and, ◌^◌,
}
use native.Mathlib.Nat.{le_refl, le_trans}
use rust_enrich.Common.Clock.{Chrono, Millis}
use rust_enrich.Storage.Types.{StorageError, QuotaLimits}
use rust_enrich.Storage.Quota.{
  QuotaState, QuotaDecision, Verdict, start_verdict, check_cooldown, check_day, check_remaining,
  check_minute, conclude, quota_decision, count_after, is_exhausted, delay_seconds,
}

-- The reasons for which a request is held back, as the documentation of quotas lists them.
abbrev pub is_held : QuotaLimits → List Millis → QuotaState → Millis → Millis → Bool
is_held limits times s now actual_now =
    ltb actual_now now
    || is_some_and s.cooldown_until (ltb now)
    || leb limits.day s.daily_consumed
    || is_exhausted s.provider_remaining
    || (ltb 0 limits.minute && leb limits.minute (count_after (now - 60000) times))

one-le-max : (a n : ℕ) → max a 1 ≡ n → 1 ≤ n
one-le-max a n h = omega arith

le_chain : {x a b c n : ℕ} → x ≤ a → a ≤ b → b ≤ c → max c 1 ≡ n → x ≤ n
le_chain p q r e = omega arith

module _ (c : Chrono) (limits : QuotaLimits) (times : List Millis) (s : QuotaState)
    (now actual_now : Millis) where
  cooldown-blocked :
      (v : Verdict)
      → (check_cooldown s now actual_now v).blocked
        ≡ (v.blocked || is_some_and s.cooldown_until (ltb now))
  unfolding check_cooldown
  cooldown-blocked v = ground arith

  day-blocked :
      (v w : Verdict)
      → check_day c limits s now actual_now v ≡ ok w
      → w.blocked ≡ (v.blocked || leb limits.day s.daily_consumed)
  unfolding check_day
  day-blocked v w h = ground arith

  remaining-blocked :
      (v : Verdict)
      → (check_remaining s now actual_now v).blocked
        ≡ (v.blocked || is_exhausted s.provider_remaining)
  unfolding check_remaining
  remaining-blocked v = ground arith

  minute-blocked :
      (v w : Verdict)
      → check_minute limits times now actual_now v ≡ ok w
      → w.blocked ≡ (
          v.blocked || (ltb 0 limits.minute && leb limits.minute (count_after (now - 60000) times)))
  unfolding check_minute
  minute-blocked v w h = ground arith

  -- after these seconds no block whose end is known lasts
  abbrev Covers : Millis → ℕ → Type 0
  Covers until n = until ≤ actual_now + 1000 * n

  delay_seconds-covers :
      (until n : ℕ)
      → 2 ^ 63 ≤ actual_now
      → until < 2 ^ 64
      → delay_seconds until actual_now ≤ n
      → until ≤ actual_now + 1000 * n
  unfolding delay_seconds
  delay_seconds-covers until n p b h = omega arith

  -- the verdict grows
  abbrev Grows : Verdict → Verdict → Type 0
  Grows v w = (v.delay ≤ w.delay) × (v.unknown ≡ true → w.unknown ≡ true)

  day-grows :
      (v w : Verdict)
      → check_day c limits s now actual_now v ≡ ok w
      → (v.delay ≤ w.delay) × (w.unknown ≡ v.unknown)
  unfolding check_day
  day-grows v w h = ground arith

  minute-grows :
      (v w : Verdict)
      → check_minute limits times now actual_now v ≡ ok w
      → (v.delay ≤ w.delay) × (w.unknown ≡ v.unknown)
  unfolding check_minute
  minute-grows v w h = ground arith

  -- Whenever a decision is reached, it blocks exactly for the reasons that are listed.
  pub blocked-eq-is_held :
      (d : QuotaDecision)
      → quota_decision c limits times s now actual_now ≡ ok d
      → d.blocked ≡ is_held limits times s now actual_now
  unfolding quota_decision conclude
  blocked-eq-is_held d h =
      let start = start_verdict now actual_now in
      let v₀ = check_cooldown s now actual_now start in
      let (v, ev, h') = bind-eq-ok (check_day c limits s now actual_now v₀) _ h in
      let v₁ = check_remaining s now actual_now v in
      let (w, ew, e) = bind-eq-ok (check_minute limits times now actual_now v₁) _ h' in
      ground (
        arith,
        cooldown-blocked start,
        day-blocked v₀ v ev,
        remaining-blocked v,
        minute-blocked v₁ w ew,
      )

  cooldown-delay :
      (v : Verdict) (until : Millis)
      → s.cooldown_until ≡ some until
      → now < until
      → delay_seconds until actual_now ≤ (check_cooldown s now actual_now v).delay
  unfolding check_cooldown
  cooldown-delay v until e h = ground arith

  remaining-delay :
      (v : Verdict)
      → s.provider_remaining ≡ some 0
      → (check_remaining s now actual_now v).unknown ≡ false
      → (reset : Millis) × (s.provider_reset_at ≡ some reset)
        × (now < reset)
        × (delay_seconds reset actual_now ≤ (check_remaining s now actual_now v).delay)
  unfolding check_remaining
  remaining-delay v e h = elim (Option-cases s.provider_reset_at) [
    | inl none_known ↦ ground arith
    | inr (reset, known) ↦ (reset, known, ground arith, ground arith)
  ]

  remaining-grows :
      (v : Verdict)
      → (v.delay ≤ (check_remaining s now actual_now v).delay)
        × (v.unknown ≡ true → (check_remaining s now actual_now v).unknown ≡ true)
  unfolding check_remaining
  remaining-grows v = ground arith

  module _ (v w : Verdict) (n : ℕ)
      (day_ok : check_day c limits s now actual_now
          (check_cooldown s now actual_now (start_verdict now actual_now))
        ≡ ok v)
      (minute_ok : check_minute limits times now actual_now (check_remaining s now actual_now v)
        ≡ ok w)
      (largest : max w.delay 1 ≡ n) (epoch : 2 ^ 63 ≤ actual_now) where
    promise-cooldown :
        (until : Millis)
        → s.cooldown_until ≡ some until
        → now < until
        → until < 2 ^ 64
        → until ≤ actual_now + 1000 * n
    promise-cooldown until e later fits = delay_seconds-covers until n epoch fits (
        le_chain
          (le_trans (cooldown-delay (start_verdict now actual_now) until e later)
            (day-grows _ v day_ok).0)
          (remaining-grows v).0 (minute-grows _ w minute_ok).0 largest)

    promise-remaining :
        w.unknown ≡ false
        → s.provider_remaining ≡ some 0
        → (reset : Millis) × (s.provider_reset_at ≡ some reset)
          × (now < reset)
          × (reset < 2 ^ 64 → reset ≤ actual_now + 1000 * n)
    promise-remaining known e =
        let (reset, given, later, covered) =
          remaining-delay v e (sym (minute-grows _ w minute_ok).1 ∙ known) in
        (
          reset,
          given,
          later,
          λ fits.
              delay_seconds-covers reset n epoch fits
                (le_chain covered (le_refl _) (minute-grows _ w minute_ok).0 largest),
        )

  shown :
      (w : Verdict) (d : QuotaDecision) (n : ℕ)
      → ◌≡◌ {A = Result StorageError QuotaDecision} (ok (conclude w)) (ok d)
      → d.retry_after ≡ some n
      → (d.blocked ≡ true) × (w.unknown ≡ false) × (max w.delay 1 ≡ n)
  unfolding conclude
  shown w d n h e = ground arith

  reset-reached :
      (n : ℕ)
      → s.provider_remaining ≡ some 0
      → is_some_and s.provider_reset_at (leb (2 ^ 64)) ≡ false
      → ((reset : Millis) × (s.provider_reset_at ≡ some reset)
          × (now < reset)
          × (reset < 2 ^ 64 → reset ≤ actual_now + 1000 * n))
      → (reset : Millis) × (s.provider_reset_at ≡ some reset)
        × (now < reset)
        × (reset ≤ actual_now + 1000 * n)
  reset-reached n used fits (reset, same, later, reach) = (reset, same, later, reach (ground arith))

  -- A delay that is promised where a cooldown still runs is at least a second and reaches to the end of
  -- the cooldown, if the clock stands at or after 1970 and the cooldown's end is an `i64`.
  pub retry_after_cooldown :
      (d : QuotaDecision) (n : ℕ) (until : Millis)
      → quota_decision c limits times s now actual_now ≡ ok d
      → d.retry_after ≡ some n
      → 2 ^ 63 ≤ actual_now
      → s.cooldown_until ≡ some until
      → now < until
      → until < 2 ^ 64
      → (d.blocked ≡ true) × (1 ≤ n) × (until ≤ actual_now + 1000 * n)
  unfolding quota_decision
  retry_after_cooldown d n until h e epoch cool runs fits =
      let (v, ev, h') = bind-eq-ok (check_day c limits s now actual_now _) _ h in
      let (w, ew, h'') = bind-eq-ok (check_minute limits times now actual_now _) _ h' in
      let (b, known, largest) = shown w d n h'' e in
      (
        b,
        one-le-max w.delay n largest,
        promise-cooldown v w n ev ew largest epoch until cool runs fits,
      )

  -- A delay is promised of a provider whose quota is used up only if its reset is known and still ahead,
  -- and the delay reaches to the reset, if the clock stands at or after 1970 and a reset that is known
  -- is an `i64`.
  pub retry_after_reset :
      (d : QuotaDecision) (n : ℕ)
      → quota_decision c limits times s now actual_now ≡ ok d
      → d.retry_after ≡ some n
      → 2 ^ 63 ≤ actual_now
      → s.provider_remaining ≡ some 0
      → is_some_and s.provider_reset_at (leb (2 ^ 64)) ≡ false
      → (reset : Millis) × (s.provider_reset_at ≡ some reset)
        × (now < reset)
        × (reset ≤ actual_now + 1000 * n)
  unfolding quota_decision
  retry_after_reset d n h e epoch used fits =
      let (v, ev, h') = bind-eq-ok (check_day c limits s now actual_now _) _ h in
      let (w, ew, h'') = bind-eq-ok (check_minute limits times now actual_now _) _ h' in
      let (b, known, largest) = shown w d n h'' e in
      reset-reached n used fits (promise-remaining v w n ev ew largest epoch known used)
