-- ===== src/Storage/Service/DailyCap.antt =====
-- The daily cap of a provider, over every history.
use rust_enrich.Common.{
  ◌≤◌, ◌≡◌, refl, sym, ◌∙◌, ap, subst, true, false, none, some, List, [], ◌∷◌, Result, ok, err,
  arith, inl, inr, Bool-cases,
}
use rust_enrich.Common.Clock.{Chrono, IsChrono, DateTime, NaiveDate, Millis}
use rust_enrich.Domain.Types.{ProviderId}
use rust_enrich.Storage.Types.{QuotaLimits, quota_group, ReservationError}
use rust_enrich.Storage.Quota.{QuotaDecision}
use rust_enrich.Storage.Service.{Ledger, Storage, Turn, limits, reserve}
use rust_enrich.Storage.Service.Effect.{Reserves, denied, accounted, reserve-Reserves}
use rust_enrich.Storage.Service.Transaction.{Outcome, reserve_tx-Taken}
use rust_enrich.Storage.Service.Run.{
  Op, granted_at, reserves, feeds, asks, restarts, step, grant, run, push, same_provider,
  SameTables-KeepsCounts,
}
use rust_enrich.Storage.Service.Keeps.{
  feedback-KeepsCounts, retry_after-KeepsCounts, restart-KeepsCounts,
}
use rust_enrich.Storage.Service.Daily.{
  grants_on, limits-same, account, DailyInv, keeps-DailyInv, granted-DailyInv, denied-DailyInv,
  other_account, own_account, same_provider-eq,
}

module _ (c : Chrono) (p : ProviderId) where
  pub step-limits : (op : Op) (s : Storage) → limits (step c op s) p ≡ limits s p
  unfolding step
  step-limits (reserves p' turn) s = elim (reserve-Reserves c p' turn s) [
    | denied h _ ↦ limits-same p s _ h.abuseipdb h.virustotal
    | accounted d a now e le tx saved fine ↦ limits-same p s _ saved.abuseipdb saved.virustotal
  ]
  step-limits (feeds p' f turn) s =
      let k = feedback-KeepsCounts c p' f turn s in limits-same p s _ k.abuseipdb k.virustotal
  step-limits (asks p' turn) s =
      let k = retry_after-KeepsCounts c p' turn s in limits-same p s _ k.abuseipdb k.virustotal
  step-limits (restarts wall) s =
      let k = restart-KeepsCounts c wall s in limits-same p s _ k.abuseipdb k.virustotal

  pub limits-run :
      (ops : List Op) (s : Storage) (log : List DateTime)
      → limits (run c p ops s log).0 p ≡ limits s p
  unfolding run
  limits-run [] s log = refl
  limits-run (op ∷ ops) s log =
      limits-run ops (step c op s) (push (grant c p op s) log) ∙ step-limits op s

module _ (c : Chrono) (p : ProviderId) where
  same_account-DailyInv :
      (s t : Storage) (log : List DateTime)
      → account c p t ≡ account c p s
      → limits t p ≡ limits s p
      → DailyInv c p s log
      → DailyInv c p t log
  same_account-DailyInv s t log same same' v = record {
    saved = v.saved;
    parsed = rw same v.parsed;
    counted = rw same v.counted;
    none_later = v.none_later;
    capped = λ d. rw same' (v.capped d);
  }

  module _ (ic : IsChrono c) where
    answered-DailyInv :
        (turn : Turn) (s t : Storage) (log : List DateTime) (now : Millis) (d : QuotaDecision)
        (r : Result ReservationError Unit)
        → DailyInv c p s log
        → Outcome c (limits s p) turn.wall now (account c p s) d (account c p t)
        → limits t p ≡ limits s p
        → (r ≡ ok tt → d.blocked ≡ false)
        → DailyInv c p t (push (granted_at true turn.wall r) log)
    answered-DailyInv turn s t log now d (ok _) v o same free =
        granted-DailyInv c p s t log turn.wall now d v o same (free refl)
    answered-DailyInv turn s t log now d (err _) v o same free =
        denied-DailyInv c p s t log turn.wall now d v o same

    mine-DailyInv :
        (turn : Turn) (s : Storage) (log : List DateTime)
        (q : Storage × Result ReservationError Unit)
        → DailyInv c p s log
        → Reserves c p turn s q
        → DailyInv c p q.0 (push (granted_at true turn.wall q.1) log)
    mine-DailyInv turn s log (t, ok _) v (denied h no_grant) = absurd (no_grant refl)
    mine-DailyInv turn s log (t, err _) v (denied h no_grant) =
        keeps-DailyInv c p log (SameTables-KeepsCounts h) v
    mine-DailyInv turn s log (t, r) v (accounted d a now e le tx saved fine) =
        let here : account c p t ≡ a =
          ap (λ (l : Ledger). l.accounts (quota_group p)) saved.ledger
          ∙ own_account p a s.ledger.accounts in
        answered-DailyInv turn s t log now d r v
          (subst (Outcome c (limits s p) turn.wall now (account c p s) d) (sym here)
            (reserve_tx-Taken c ic (limits s p) turn.wall now _ (account c p s) a d tx))
          (limits-same p s t saved.abuseipdb saved.virustotal) fine

    others-DailyInv :
        (p' : ProviderId) (turn : Turn) (s : Storage) (log : List DateTime)
        (q : Storage × Result ReservationError Unit)
        → same_provider p p' ≡ false
        → DailyInv c p s log
        → Reserves c p' turn s q
        → DailyInv c p q.0 log
    others-DailyInv p' turn s log q other v (denied h no_grant) =
        keeps-DailyInv c p log (SameTables-KeepsCounts h) v
    others-DailyInv p' turn s log (t, r) other v (accounted d a now e le tx saved fine) =
        same_account-DailyInv s t log
          (ap (λ (l : Ledger). l.accounts (quota_group p)) saved.ledger
            ∙ other_account p p' a s.ledger.accounts other)
          (limits-same p s t saved.abuseipdb saved.virustotal) v

    pub none_for_others :
        (wall : DateTime) (r : Result ReservationError Unit) → granted_at false wall r ≡ none
    none_for_others wall (ok _) = refl
    none_for_others wall (err _) = refl

    reserve-DailyInv :
        (p' : ProviderId) (turn : Turn) (s : Storage) (log : List DateTime)
        → DailyInv c p s log
        → DailyInv c p
            (reserve c p' turn s).0
            (push (granted_at (same_provider p p') turn.wall (reserve c p' turn s).1) log)
    reserve-DailyInv p' turn s log v = elim (Bool-cases (same_provider p p')) [
      | inl mine ↦ rw mine (
          subst
            (λ x.
              DailyInv c p (reserve c x turn s).0
                (push (granted_at true turn.wall (reserve c x turn s).1) log))
            (same_provider-eq p p' mine)
            (mine-DailyInv turn s log (reserve c p turn s) v (reserve-Reserves c p turn s)))
      | inr other ↦
          rw (other, none_for_others)
            (others-DailyInv p' turn s log (reserve c p' turn s) other v
              (reserve-Reserves c p' turn s))
    ]

    pub step-DailyInv :
        (op : Op) (s : Storage) (log : List DateTime)
        → DailyInv c p s log
        → DailyInv c p (step c op s) (push (grant c p op s) log)
    unfolding step grant
    step-DailyInv (reserves p' turn) s log v = reserve-DailyInv p' turn s log v
    step-DailyInv (feeds p' f turn) s log v =
        keeps-DailyInv c p log (feedback-KeepsCounts c p' f turn s) v
    step-DailyInv (asks p' turn) s log v =
        keeps-DailyInv c p log (retry_after-KeepsCounts c p' turn s) v
    step-DailyInv (restarts wall) s log v = keeps-DailyInv c p log (restart-KeepsCounts c wall s) v

    run-DailyInv :
        (ops : List Op) (s : Storage) (log : List DateTime)
        → DailyInv c p s log
        → DailyInv c p (run c p ops s log).0 (run c p ops s log).1
    unfolding run
    run-DailyInv [] s log v = v
    run-DailyInv (op ∷ ops) s log v =
        run-DailyInv ops (step c op s) (push (grant c p op s) log) (step-DailyInv op s log v)

    -- In every history the provider is granted at most its daily cap on every day, whatever the clock
    -- does and whatever fails, from tables whose day can be read and a log that is still empty.
    pub daily_cap :
        (s : Storage) (saved : NaiveDate) (ops : List Op) (d : NaiveDate)
        → c.parse_date (account c p s).state.day ≡ some saved
        → grants_on c d (run c p ops s []).1 ≤ (limits s p).day
    daily_cap s saved ops d parsed =
        subst (λ (l : QuotaLimits). grants_on c d (run c p ops s []).1 ≤ l.day)
          (limits-run c p ops s [])
          ((run-DailyInv ops s [] (record {
            saved = saved;
            parsed = parsed;
            counted = omega arith;
            none_later = λ _ _. refl;
            capped = λ _. omega arith;
          })).capped
            d)
