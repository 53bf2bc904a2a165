-- ===== src/Storage/Service/Snapshot.antt =====
-- The snapshot of the pending feedback that the transaction of `reserve` takes in: its cooldown blocks.
use rust_enrich.Common.{
  ℕ, ◌-◌, ◌≡◌, Bool, true, Option, none, some, ok, bind-eq-ok, ap, ◌∙◌, sym, is_some_and, ltb, keep,
  arith,
}
use rust_enrich.Common.Clock.{Chrono, DateTime, Millis}
use rust_enrich.Storage.Types.{PendingFeedback, QuotaFeedback, QuotaLimits}
use rust_enrich.Storage.Quota.{
  QuotaState, QuotaDecision, advance_day, apply_feedback, expire_feedback, ensure_unknown_cooldown,
  quota_decision, write,
}
use rust_enrich.Storage.Quota.Decision.{is_held, blocked-eq-is_held}
use rust_enrich.Storage.Service.{Account, apply_pending, take_attempt, reserve_tx}
use rust_enrich.Storage.Service.Transaction.{decision_or}

-- The pending feedback names a cooldown that is not over.
abbrev pub is_cooling : Chrono → Millis → Option PendingFeedback → Bool
is_cooling c now o =
    is_some_and o (λ p. is_some_and p.feedback.cooldown_until (λ t. ltb now (c.timestamp_millis t)))

module _ (c : Chrono) where
  apply_feedback-cooldown :
      (f : QuotaFeedback) (now : Millis) (unobserved : ℕ) (s t : QuotaState)
      → apply_feedback c f now unobserved s ≡ ok t
      → is_some_and f.cooldown_until (λ u. ltb now (c.timestamp_millis u)) ≡ true
      → is_some_and t.cooldown_until (ltb now) ≡ true
  unfolding apply_feedback expire_feedback ensure_unknown_cooldown
  apply_feedback-cooldown f now unobserved s t h cool = ground arith

  apply_pending-cooldown :
      (o : Option PendingFeedback) (now : Millis) (unobserved : ℕ) (s t : QuotaState)
      → apply_pending c o now unobserved s ≡ ok t
      → is_cooling c now o ≡ true
      → is_some_and t.cooldown_until (ltb now) ≡ true
  unfolding apply_pending
  apply_pending-cooldown none now unobserved s t h cool = cc
  apply_pending-cooldown (some q) now unobserved s t h cool =
      apply_feedback-cooldown q.feedback now unobserved s t h cool

  pub reserve_tx-cooling :
      (limits : QuotaLimits) (wall : DateTime) (now : Millis) (pending : Option PendingFeedback)
      (a b : Account) (d : QuotaDecision)
      → reserve_tx c limits wall now pending a ≡ ok (d, b)
      → is_cooling c now pending ≡ true
      → d.blocked ≡ true
  unfolding reserve_tx
  reserve_tx-cooling limits wall now pending a b d tx cool =
      let recent = keep (ltb (now - 60000)) a.attempts in
      let (today, e₁, h₁) = bind-eq-ok (advance_day c wall a.state) _ tx in
      let (state, e₂, h₂) =
        bind-eq-ok (apply_pending c pending now limits.unobserved_attempts today) _ h₁ in
      let (decision, e₃, h₃) = bind-eq-ok (quota_decision c limits recent state now now) _ h₂ in
      let (taken, e₄, h₄) =
        bind-eq-ok (take_attempt decision limits now (record { state = state; attempts = recent }))
          _ h₃ in
      let (written, e₅, h₅) = bind-eq-ok (write taken.state) _ h₄ in
      let same : decision ≡ d = ap (decision_or d) h₅ in
      let later =
        apply_pending-cooldown pending now limits.unobserved_attempts today state e₂ cool in
      let reasons = blocked-eq-is_held c limits recent state now now decision e₃ in
      let held : is_held limits recent state now now ≡ true = ground arith in
      ap (λ (x : QuotaDecision). x.blocked) (sym same) ∙ reasons ∙ held
