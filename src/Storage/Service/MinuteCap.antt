-- ===== src/Storage/Service/MinuteCap.antt =====
-- The rolling cap of a provider, over every history.
use rust_enrich.Common.{
  ◌≤◌, ◌<◌, ◌≡◌, refl, sym, subst, true, List, [], ◌∷◌, arith, inl, inr, Bool-cases,
}
use rust_enrich.Common.Clock.{Chrono, IsChrono, DateTime, Millis}
use rust_enrich.Domain.Types.{ProviderId}
use rust_enrich.Storage.Types.{QuotaLimits}
use rust_enrich.Storage.Quota.{count_after}
use rust_enrich.Storage.Service.{Storage, Turn, limits, reserve}
use rust_enrich.Storage.Service.Effect.{reserve-Reserves}
use rust_enrich.Storage.Service.Run.{
  Op, granted_at, reserves, feeds, asks, restarts, step, grant, run, push, same_provider,
}
use rust_enrich.Storage.Service.Keeps.{
  feedback-KeepsCounts, retry_after-KeepsCounts, restart-KeepsCounts,
}
use rust_enrich.Storage.Service.Daily.{same_provider-eq}
use rust_enrich.Storage.Service.DailyCap.{limits-run, step-limits, none_for_others}
use rust_enrich.Storage.Service.Minute.{
  MinuteInv, times, in_minute, keeps-MinuteInv, mine-MinuteInv, others-MinuteInv,
}

none_counted : (m : Millis) → count_after m [] ≡ 0
unfolding count_after
none_counted m = refl

module _ (c : Chrono) (p : ProviderId) (ic : IsChrono c) where
  reserve-MinuteInv :
      (p' : ProviderId) (turn : Turn) (s : Storage) (log : List DateTime)
      → MinuteInv c p s log
      → 0 < (limits s p).minute
      → MinuteInv c p
          (reserve c p' turn s).0
          (push (granted_at (same_provider p p') turn.wall (reserve c p' turn s).1) log)
  reserve-MinuteInv p' turn s log v on = elim (Bool-cases (same_provider p p')) [
    | inl mine ↦ rw mine (
        subst
          (λ x.
            MinuteInv c p (reserve c x turn s).0
              (push (granted_at true turn.wall (reserve c x turn s).1) log))
          (same_provider-eq p p' mine)
          (mine-MinuteInv c p ic turn s log (reserve c p turn s) v on
            (reserve-Reserves c p turn s)))
    | inr other ↦
        rw (other, none_for_others c p ic)
          (others-MinuteInv c p ic p' turn s log (reserve c p' turn s) other v
            (reserve-Reserves c p' turn s))
  ]

  step-MinuteInv :
      (op : Op) (s : Storage) (log : List DateTime)
      → MinuteInv c p s log
      → 0 < (limits s p).minute
      → MinuteInv c p (step c op s) (push (grant c p op s) log)
  unfolding step grant
  step-MinuteInv (reserves p' turn) s log v on = reserve-MinuteInv p' turn s log v on
  step-MinuteInv (feeds p' f turn) s log v on =
      keeps-MinuteInv c p log (feedback-KeepsCounts c p' f turn s) v
  step-MinuteInv (asks p' turn) s log v on =
      keeps-MinuteInv c p log (retry_after-KeepsCounts c p' turn s) v
  step-MinuteInv (restarts wall) s log v on =
      keeps-MinuteInv c p log (restart-KeepsCounts c wall s) v

  run-MinuteInv :
      (ops : List Op) (s : Storage) (log : List DateTime)
      → MinuteInv c p s log
      → 0 < (limits s p).minute
      → MinuteInv c p (run c p ops s log).0 (run c p ops s log).1
  unfolding run
  run-MinuteInv [] s log v on = v
  run-MinuteInv (op ∷ ops) s log v on =
      run-MinuteInv ops (step c op s) (push (grant c p op s) log) (step-MinuteInv op s log v on)
        (subst (λ (l : QuotaLimits). 0 < l.minute) (sym (step-limits c p op s)) on)

  -- In every history, at most the provider's cap of requests is granted within any minute, whatever
  -- the clock does and whatever fails, if the cap is in force, the clock's mark in memory is not
  -- behind the saved one, and the log is still empty.
  pub minute_cap :
      (s : Storage) (ops : List Op) (from : Millis)
      → 0 < (limits s p).minute
      → s.ledger.clock_high_water ≤ s.runtime.high_water
      → in_minute from (times c (run c p ops s []).1) ≤ (limits s p).minute
  minute_cap s ops from on marked =
      subst (λ (l : QuotaLimits). in_minute from (times c (run c p ops s []).1) ≤ l.minute)
        (limits-run c p ops s [])
        ((run-MinuteInv ops s []
            (record {
              marked = marked;
              past = λ _ _. none_counted _;
              covered = λ _ _. rw none_counted (omega arith);
              capped = λ _. omega arith;
            })
            on).capped
          from)
