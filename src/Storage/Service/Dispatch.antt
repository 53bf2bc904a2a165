-- ===== src/Storage/Service/Dispatch.antt =====
-- What a granted reservation says of the call: nothing is dispatched past an uncertain commit or past
-- feedback that is not saved.
use rust_enrich.Common.{
  ◌<◌, ◌≡◌, refl, max, true, Option, none, Result, ok, err, Bool-cases, inl, inr, ltb, arith, ℕ,
  ◌+◌, ◌^◌, false, length,
}
use native.Mathlib.Nat.{le_refl}
use rust_enrich.Common.Clock.{Chrono, Millis}
use rust_enrich.Domain.Types.{ProviderId}
use rust_enrich.Storage.Types.{StorageError, PendingFeedback, QuotaLimits, QuotaGroup, quota_group}
use rust_enrich.Storage.Quota.{QuotaDecision}
use rust_enrich.Storage.Service.{
  Account, Ledger, Storage, Turn, Fate, completes, overdue, expires, detached, fails, observe,
  retain_all, commit, bounded, save, finish, run_reserve, reserve_gated, reserve, flatten,
  Reservation, limits, reserve_tx, clear_pending, answer,
}
use rust_enrich.Storage.Service.Snapshot.{is_cooling, reserve_tx-cooling}
use rust_enrich.Storage.Service.Numbered.{IsNumbered}
use rust_enrich.Storage.Service.Retained.{is_arrived, is_later, retain_all-is_later}

finish-saved :
    (g : QuotaGroup) (o : Option PendingFeedback) (d : QuotaDecision)
    (p : Storage × Result StorageError Unit)
    → (finish g o d p).1 ≡ ok (ok tt)
    → (finish g o d p).0.runtime.pending g ≡ none
unfolding finish
finish-saved g o d (s, err e) h = cc
finish-saved g o d (s, ok _) h = ground arith

finish-late :
    (k : ℕ) (g : QuotaGroup) (o : Option PendingFeedback) (d : QuotaDecision) (fate : Fate)
    (l : Ledger) (s : Storage)
    → (finish g o d (commit fate l s)).1 ≡ ok (ok tt)
    → is_later k o ≡ false
    → is_later k (s.runtime.pending g) ≡ false
unfolding finish commit clear_pending
finish-late k g o d fate l s h old = ground arith

run-late :
    (k : ℕ) (g : QuotaGroup) (o : Option PendingFeedback) (turn : Turn) (now : Millis) (s : Storage)
    (tx : Result StorageError (QuotaDecision × Account))
    → (run_reserve g o turn now s tx).1 ≡ ok (ok tt)
    → is_later k o ≡ false
    → is_later k (s.runtime.pending g) ≡ false
unfolding run_reserve
run-late k g o turn now s (err e) h old = cc
run-late k g o turn now s (ok (d, a)) h old =
    finish-late k g o d turn.fate (save g a now s.ledger) s h old

finish-free :
    (g : QuotaGroup) (o : Option PendingFeedback) (d : QuotaDecision)
    (p : Storage × Result StorageError Unit)
    → (finish g o d p).1 ≡ ok (ok tt)
    → d.blocked ≡ false
unfolding finish answer
finish-free g o d (s, err e) h = cc
finish-free g o d (s, ok _) h = ground arith

flatten-ok : (r : Reservation) → flatten r ≡ ok tt → r ≡ ok (ok tt)
flatten-ok (ok r) e = rw e
flatten-ok (err x) e = cc

gated-saved :
    (g : QuotaGroup) (o : Option PendingFeedback) (turn : Turn) (now : Millis) (s : Storage)
    (tx : Result StorageError (QuotaDecision × Account))
    → (run_reserve g o turn now s tx).1 ≡ ok (ok tt)
    → (run_reserve g o turn now s tx).0.runtime.pending g ≡ none
unfolding run_reserve
gated-saved g o turn now s (err e) h = cc
gated-saved g o turn now s (ok (d, a)) h = finish-saved g o d _ h

uncommitted :
    (g : QuotaGroup) (o : Option PendingFeedback) (d : QuotaDecision) (fate : Fate) (l : Ledger)
    (b s : Storage)
    → (bounded fate b (finish g o d (commit fate l s))).1 ≡ ok (ok tt)
    → fate ≡ completes
unfolding bounded finish commit
uncommitted g o d completes l b s h = refl
uncommitted g o d overdue l b s h = cc
uncommitted g o d expires l b s h = cc
uncommitted g o d detached l b s h = cc
uncommitted g o d (fails e) l b s h = cc

bounded-ok :
    (fate : Fate) (b : Storage) (p : Storage × Reservation)
    → (bounded fate b p).1 ≡ ok (ok tt)
    → (p.1 ≡ ok (ok tt))
      × ((bounded fate b p).0.runtime ≡ p.0.runtime)
      × ((bounded fate b p).0.available ≡ true)
unfolding bounded
bounded-ok completes b (s, r) h = (h, refl, rw h)
bounded-ok overdue b p h = cc
bounded-ok expires b p h = cc
bounded-ok detached b (s, r) h = (h, refl, rw h)
bounded-ok (fails e) b (s, r) h = (h, refl, rw h)

run-completes :
    (g : QuotaGroup) (o : Option PendingFeedback) (turn : Turn) (now : Millis) (b s : Storage)
    (tx : Result StorageError (QuotaDecision × Account))
    → (bounded turn.fate b (run_reserve g o turn now s tx)).1 ≡ ok (ok tt)
    → turn.fate ≡ completes
unfolding run_reserve
run-completes g o turn now b s (err e) h = cc (bounded-ok turn.fate b (s, err e) h).0
run-completes g o turn now b s (ok (d, a)) h =
    uncommitted g o d turn.fate (save g a now s.ledger) b s h

module _ (c : Chrono) where
  run-warm :
      (g : QuotaGroup) (turn : Turn) (caps : QuotaLimits) (s : Storage) (o : Option PendingFeedback)
      (now : Millis) (a : Account) (r : Result StorageError (QuotaDecision × Account))
      → reserve_tx c caps turn.wall now o a ≡ r
      → (run_reserve g o turn now s r).1 ≡ ok (ok tt)
      → is_cooling c now o ≡ false
  unfolding run_reserve
  run-warm g turn caps s o now a (err x) e h = cc
  run-warm g turn caps s o now a (ok (d, b)) e h = elim (Bool-cases (is_cooling c now o)) [
    | inl cool ↦
        let blocked = reserve_tx-cooling c caps turn.wall now o a b d e cool in
        let free = finish-free g o d _ h in cc
    | inr warm ↦ warm
  ]

module _ (c : Chrono) (p : ProviderId) (turn : Turn) (s : Storage) where
  gated-granted :
      (bounded turn.fate s (reserve_gated c p turn s)).1 ≡ ok (ok tt)
      → (turn.fate ≡ completes)
        × ((reserve_gated c p turn s).0.runtime.pending (quota_group p) ≡ none)
  unfolding reserve_gated
  gated-granted h =
      let wall = c.timestamp_millis turn.wall in
      let seen = observe wall s in
      elim (Bool-cases (ltb wall seen.runtime.high_water)) [
        | inl behind ↦ cc (bounded-ok turn.fate s _ (rw (behind, reserve_gated) at h)).0
        | inr fresh ↦
            let now = seen.runtime.high_water in
            let pending = seen.runtime.pending (quota_group p) in
            let before = retain_all turn.arrived seen in
            let tx =
              reserve_tx c (limits s p) turn.wall now pending
                (seen.ledger.accounts (quota_group p)) in
            let h' = rw (fresh, reserve_gated) at h in
            rw (fresh, reserve_gated)
              (
                run-completes (quota_group p) pending turn now s before tx h',
                gated-saved (quota_group p) pending turn now before tx
                    (bounded-ok turn.fate s _ h').0,
              )
      ]

  gated-warm :
      (bounded turn.fate s (reserve_gated c p turn s)).1 ≡ ok (ok tt)
      → is_cooling c
          (max s.runtime.high_water (c.timestamp_millis turn.wall))
          (s.runtime.pending (quota_group p))
        ≡ false
  unfolding reserve_gated observe
  gated-warm h =
      let wall = c.timestamp_millis turn.wall in
      let seen = observe wall s in
      elim (Bool-cases (ltb wall seen.runtime.high_water)) [
        | inl behind ↦ cc (bounded-ok turn.fate s _ (rw (behind, reserve_gated) at h)).0
        | inr fresh ↦
            run-warm c (quota_group p) turn (limits s p) (retain_all turn.arrived seen)
              (seen.runtime.pending (quota_group p)) seen.runtime.high_water
              (seen.ledger.accounts (quota_group p)) _ refl
              (bounded-ok turn.fate s _ (rw (fresh, reserve_gated) at h)).0
      ]

  gated-late :
      (k : ℕ)
      → (bounded turn.fate s (reserve_gated c p turn s)).1 ≡ ok (ok tt)
      → is_later k (s.runtime.pending (quota_group p)) ≡ false
      → is_later k (
          (retain_all turn.arrived (observe (c.timestamp_millis turn.wall) s)).runtime.pending
            (quota_group p))
        ≡ false
  unfolding reserve_gated observe
  gated-late k h old =
      let wall = c.timestamp_millis turn.wall in
      let seen = observe wall s in
      elim (Bool-cases (ltb wall seen.runtime.high_water)) [
        | inl behind ↦ cc (bounded-ok turn.fate s _ (rw (behind, reserve_gated) at h)).0
        | inr fresh ↦
            let now = seen.runtime.high_water in
            let pending = seen.runtime.pending (quota_group p) in
            run-late k (quota_group p) pending turn now (retain_all turn.arrived seen)
              (reserve_tx c (limits s p) turn.wall now pending
                (seen.ledger.accounts (quota_group p)))
              (bounded-ok turn.fate s _ (rw (fresh, reserve_gated) at h)).0 old
      ]

  gated-arrived :
      (bounded turn.fate s (reserve_gated c p turn s)).1 ≡ ok (ok tt)
      → is_later s.runtime.next_generation (s.runtime.pending (quota_group p)) ≡ false
      → s.runtime.next_generation + length turn.arrived < 2 ^ 64
      → is_arrived (quota_group p) turn.arrived ≡ false
  unfolding observe
  gated-arrived h old fits = elim (Bool-cases (is_arrived (quota_group p) turn.arrived)) [
    | inl come ↦
        let kept = gated-late s.runtime.next_generation h old in
        let later =
          retain_all-is_later s.runtime.next_generation (quota_group p) turn.arrived
            (observe (c.timestamp_millis turn.wall) s) (le_refl _) fits come in
        cc
    | inr nothing ↦ nothing
  ]

  -- A grant is given only if the commit was answered before the deadline, if the provider's feedback that
  -- was pending names no cooldown that is not over, if no feedback of the provider arrived while the
  -- transaction ran, and if none is left pending; and then storage is marked available. What was pending
  -- has at most the counter's generation, as `reserve` and `feedback` keep it, and the counter does not
  -- wrap during the call.
  pub reserve_grant :
      (reserve c p turn s).1 ≡ ok tt
      → IsNumbered (quota_group p) s
      → s.runtime.next_generation + length turn.arrived < 2 ^ 64
      → (turn.fate ≡ completes)
        × (is_cooling c
              (max s.runtime.high_water (c.timestamp_millis turn.wall))
              (s.runtime.pending (quota_group p))
            ≡ false)
        × (is_arrived (quota_group p) turn.arrived ≡ false)
        × ((reserve c p turn s).0.runtime.pending (quota_group p) ≡ none)
        × ((reserve c p turn s).0.available ≡ true)
  unfolding reserve
  reserve_grant h old fits =
      let h' = flatten-ok _ h in
      let (_, same, up) = bounded-ok turn.fate s (reserve_gated c p turn s) h' in
      let (committed, saved) = gated-granted h' in
      (committed, gated-warm h', gated-arrived h' old fits, rw same saved, up)
