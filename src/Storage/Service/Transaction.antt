-- ===== src/Storage/Service/Transaction.antt =====
-- What the transaction of `reserve` does to its account: the day's count and the attempts.
use rust_enrich.Common.{
  ℕ, ◌+◌, ◌-◌, ◌≤◌, ◌<◌, ◌≡◌, refl, sym, ◌∙◌, ap, subst, true, false, Option, none, some, List, ◌∷◌,
  Result, ok, err, bind-eq-ok, Bool-cases, inl, inr, ltb, if◌then◌else◌, keep, arith,
}
use rust_enrich.Common.Clock.{Chrono, IsChrono, DateTime, NaiveDate, Millis}
use rust_enrich.Storage.Types.{StorageError, PendingFeedback, QuotaLimits}
use rust_enrich.Storage.Quota.{
  QuotaState, QuotaDecision, advance_day, write, quota_decision, count_after,
}
use rust_enrich.Storage.Quota.Window.{
  SameDay, apply_feedback-SameDay, ensure_unknown_cooldown-SameDay, advance_day_lem, carried,
}
use rust_enrich.Storage.Quota.Decision.{is_held, blocked-eq-is_held}
use rust_enrich.Storage.Service.{Account, apply_pending, take_attempt, count_attempt, reserve_tx}

abbrev pub decision_or :
    QuotaDecision → Result StorageError (QuotaDecision × Account) → QuotaDecision
decision_or d (ok r) = r.0
decision_or d (err e) = d

abbrev account_or : Account → Result StorageError (QuotaDecision × Account) → Account
account_or a (ok r) = r.1
account_or a (err e) = a

-- The account behind a reservation that was decided at `now`, with the recent attempts given.
pub record Taken (limits : QuotaLimits) (now : Millis) (recent : List Millis) (consumed : ℕ)
    (d : QuotaDecision) (b : Account) : Type 0 where
  pub held : d.blocked ≡ true → (b.state.daily_consumed ≡ consumed) × (b.attempts ≡ recent)
  pub free :
      d.blocked ≡ false
      → (b.state.daily_consumed ≡ consumed + 1)
        × (consumed < limits.day)
        × (0 < limits.minute
            → (b.attempts ≡ now ∷ recent) × (count_after (now - 60000) recent < limits.minute))

module _ (c : Chrono) where
  apply_pending-SameDay :
      (o : Option PendingFeedback) (now : Millis) (unobserved : ℕ) (s t : QuotaState)
      → apply_pending c o now unobserved s ≡ ok t
      → SameDay s t
  unfolding apply_pending
  apply_pending-SameDay none now unobserved s t h = ground arith
  apply_pending-SameDay (some pending) now unobserved s t h =
      apply_feedback-SameDay c pending.feedback now unobserved s t h

  count_attempt-ok :
      (s t : QuotaState)
      → count_attempt s ≡ ok t
      → (t.daily_consumed ≡ s.daily_consumed + 1) × (t.day ≡ s.day)
  unfolding count_attempt
  count_attempt-ok s t h = ground arith

  taken-held :
      (d : QuotaDecision) (limits : QuotaLimits) (now : Millis) (a b : Account)
      → take_attempt d limits now a ≡ ok b
      → d.blocked ≡ true
      → b ≡ a
  unfolding take_attempt
  taken-held d limits now a b h e = ground arith

  taken-free :
      (d : QuotaDecision) (limits : QuotaLimits) (now : Millis) (a b : Account)
      → take_attempt d limits now a ≡ ok b
      → d.blocked ≡ false
      → (b.state.daily_consumed ≡ a.state.daily_consumed + 1)
        × (b.state.day ≡ a.state.day)
        × (b.attempts ≡ (if ltb 0 limits.minute then now ∷ a.attempts else a.attempts))
  unfolding take_attempt
  taken-free d limits now a b h e =
      let (t, e', h') = bind-eq-ok (count_attempt a.state) _ (rw (e, take_attempt) at h) in
      ground (arith, count_attempt-ok a.state t e', ensure_unknown_cooldown-SameDay now t)

  -- what is not held back is below both caps
  below_caps :
      (limits : QuotaLimits) (times : List Millis) (s : QuotaState) (now : Millis)
      → is_held limits times s now now ≡ false
      → (s.daily_consumed < limits.day)
        × (0 < limits.minute → count_after (now - 60000) times < limits.minute)
  below_caps limits times s now h = ground arith

  take_attempt-Taken :
      (d : QuotaDecision) (limits : QuotaLimits) (now : Millis) (a b : Account)
      → take_attempt d limits now a ≡ ok b
      → d.blocked ≡ is_held limits a.attempts a.state now now
      → Taken limits now a.attempts a.state.daily_consumed d b
  take_attempt-Taken d limits now a b h e = record {
    held = λ q. rw (taken-held d limits now a b h q) (refl, refl);
    free = λ q.
        let (counted, _, added) = taken-free d limits now a b h q in
        let (daily, minute) = below_caps limits a.attempts a.state now (sym e ∙ q) in
        (counted, daily, λ on. (ground arith, minute on));
  }

  take_attempt-day :
      (d : QuotaDecision) (limits : QuotaLimits) (now : Millis) (a b : Account)
      → take_attempt d limits now a ≡ ok b
      → b.state.day ≡ a.state.day
  take_attempt-day d limits now a b h = elim (Bool-cases d.blocked) [
    | inl e ↦ rw (taken-held d limits now a b h e)
    | inr e ↦ (taken-free d limits now a b h e).1
  ]

  write-ok : (s t : QuotaState) → write s ≡ ok t → t ≡ s
  unfolding write
  write-ok s t h = ground arith

  abbrev pub Outcome : QuotaLimits → DateTime → Millis → Account → QuotaDecision → Account → Type 0
  Outcome limits wall now a d b =
      (saved : NaiveDate) × (c.parse_date a.state.day ≡ some saved)
      × (saved ≤ c.date_naive wall)
      × (c.parse_date b.state.day ≡ some (c.date_naive wall))
      × Taken limits now (keep (ltb (now - 60000)) a.attempts)
          (carried saved (c.date_naive wall) a.state.daily_consumed) d b

  -- the stages of the transaction, put together
  assemble :
      (ic : IsChrono c) (limits : QuotaLimits) (wall : DateTime) (now : Millis)
      (a taken b : Account) (d decision : QuotaDecision) (today state written : QuotaState)
      → advance_day c wall a.state ≡ ok today
      → SameDay today state
      → decision.blocked ≡ is_held limits (keep (ltb (now - 60000)) a.attempts) state now now
      → take_attempt decision limits now
          (record { state = state; attempts = keep (ltb (now - 60000)) a.attempts })
        ≡ ok taken
      → written ≡ taken.state
      → decision ≡ d
      → record { state = written; attempts = taken.attempts } ≡ b
      → Outcome limits wall now a d b
  assemble ic limits wall now a taken b d decision today state written e₁ same held e₄ e₅ ed eb =
      let (saved, parsed, le, parsed', counted) = advance_day_lem c ic wall a.state today e₁ in
      let eb' : taken ≡ b = ap (λ s. record taken { state = s }) (sym e₅) ∙ eb in
      (
        saved,
        parsed,
        le,
        ap c.parse_date (
              ap (λ (x : Account). x.state.day) (sym eb')
              ∙ take_attempt-day decision limits now _ taken e₄
              ∙ same.0)
            ∙ parsed',
        subst (λ n. Taken limits now (keep (ltb (now - 60000)) a.attempts) n d b) (same.1 ∙ counted)
            (subst
              (λ x. Taken limits now (keep (ltb (now - 60000)) a.attempts) state.daily_consumed d x)
              eb'
              (subst
                (λ x.
                  Taken limits now (keep (ltb (now - 60000)) a.attempts) state.daily_consumed x
                    taken)
                ed (take_attempt-Taken decision limits now _ taken e₄ held))),
      )

  module _ (ic : IsChrono c) (limits : QuotaLimits) (wall : DateTime) (now : Millis)
      (pending : Option PendingFeedback) (a b : Account) (d : QuotaDecision)
      (tx : reserve_tx c limits wall now pending a ≡ ok (d, b)) where
    -- The saved day moves to today, and the account is as `Taken` says from the count that today
    -- starts from and the attempts of the last minute.
    pub reserve_tx-Taken : Outcome limits wall now a d b
    unfolding reserve_tx
    reserve_tx-Taken =
        let recent = keep (ltb (now - 60000)) a.attempts in
        let (today, e₁, h₁) = bind-eq-ok (advance_day c wall a.state) _ tx in
        let (state, e₂, h₂) =
          bind-eq-ok (apply_pending c pending now limits.unobserved_attempts today) _ h₁ in
        let (decision, e₃, h₃) = bind-eq-ok (quota_decision c limits recent state now now) _ h₂ in
        let (taken, e₄, h₄) =
          bind-eq-ok
            (take_attempt decision limits now (record { state = state; attempts = recent })) _ h₃ in
        let (written, e₅, h₅) = bind-eq-ok (write taken.state) _ h₄ in
        assemble ic limits wall now a taken b d decision today state written e₁
          (apply_pending-SameDay pending now limits.unobserved_attempts today state e₂)
          (blocked-eq-is_held c limits recent state now now decision e₃) e₄
          (write-ok taken.state written e₅) (ap (decision_or d) h₅) (ap (account_or b) h₅)

    -- A reservation that is granted adds one to the count of the day on which it is made, which starts
    -- again on a later day than the saved one, and the count was below the day's limit.
    pub reserve_tx-granted :
        d.blocked ≡ false
        → (saved : NaiveDate) × (c.parse_date a.state.day ≡ some saved)
          × (c.parse_date b.state.day ≡ some (c.date_naive wall))
          × (b.state.daily_consumed ≡ carried saved (c.date_naive wall) a.state.daily_consumed + 1)
          × (carried saved (c.date_naive wall) a.state.daily_consumed < limits.day)
    reserve_tx-granted free =
        let (saved, parsed, le, parsed', taken) = reserve_tx-Taken in
        let (count, below, minute) = taken.free free in (saved, parsed, parsed', count, below)

    -- A reservation that is held back leaves the count of the day, started again on a later day than the
    -- saved one, and of the attempts those of the last minute.
    pub reserve_tx-held :
        d.blocked ≡ true
        → (saved : NaiveDate) × (c.parse_date a.state.day ≡ some saved)
          × (b.state.daily_consumed ≡ carried saved (c.date_naive wall) a.state.daily_consumed)
          × (b.attempts ≡ keep (ltb (now - 60000)) a.attempts)
    reserve_tx-held held =
        let (saved, parsed, le, parsed', taken) = reserve_tx-Taken in
        let (count, attempts) = taken.held held in (saved, parsed, count, attempts)
