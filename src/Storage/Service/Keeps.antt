-- ===== src/Storage/Service/Keeps.antt =====
-- The calls that grant nothing keep every count: `feedback`, `retry_after` and a restart.
use rust_enrich.Common.{
  ◌≤◌, ◌≡◌, refl, ◌∙◌, Bool, false, Option, none, some, Result, ok, err, arith, bind-eq-ok,
}
use native.Mathlib.Nat.{le_refl, le_trans}
use rust_enrich.Common.Clock.{Chrono, DateTime, Millis}
use rust_enrich.Domain.Types.{ProviderId}
use rust_enrich.Storage.Types.{
  StorageError, QuotaFeedback, PendingFeedback, QuotaGroup, abuseipdb_check, virustotal,
  quota_group, QuotaLimits,
}
use rust_enrich.Storage.Quota.{write, apply_feedback}
use rust_enrich.Storage.Quota.Window.{SameDay, apply_feedback-SameDay}
use rust_enrich.Storage.Service.{
  Account, Storage, Turn, Fate, completes, overdue, expires, detached, limits, retain, retain_all,
  bounded, commit, save, set_group, retry_after, feedback, feedback_tx, feedback_gated,
  persist_pending, run_feedback, finish_feedback,
}
use rust_enrich.Storage.Service.Effect.{
  SameTables-refl, observe-SameTables, retain-SameTables, retain_all-SameTables,
  clear_pending-SameTables,
}
use rust_enrich.Storage.Service.Run.{
  KeepsCounts, SameTables-KeepsCounts, initialize, check_tables, or_stay,
}

pub KeepsCounts-trans : {s t u : Storage} → KeepsCounts s t → KeepsCounts t u → KeepsCounts s u
KeepsCounts-trans h k = record {
  day = λ g. ((k.day g).0 ∙ (h.day g).0, (k.day g).1 ∙ (h.day g).1);
  attempts = λ g. k.attempts g ∙ h.attempts g;
  abuseipdb = k.abuseipdb ∙ h.abuseipdb;
  virustotal = k.virustotal ∙ h.virustotal;
  mark_mono = le_trans h.mark_mono k.mark_mono;
  marked = λ m. k.marked (h.marked m);
}

flag-KeepsCounts :
    {s t : Storage} (b : Bool) → KeepsCounts s t → KeepsCounts s (record t { available = b })
flag-KeepsCounts b h = record {
  day = h.day;
  attempts = h.attempts;
  abuseipdb = h.abuseipdb;
  virustotal = h.virustotal;
  mark_mono = h.mark_mono;
  marked = h.marked;
}

bounded-KeepsCounts :
    {A : Type 0} (fate : Fate) (s r : Storage) (p : Storage × Result StorageError A)
    → KeepsCounts s r
    → KeepsCounts s p.0
    → KeepsCounts s (bounded fate r p).0
unfolding bounded
bounded-KeepsCounts expires s r p b h = flag-KeepsCounts false b
bounded-KeepsCounts overdue s r p b h = flag-KeepsCounts false h
bounded-KeepsCounts _ s r p b h = flag-KeepsCounts _ h

-- An account that replaces another with the same day, count and attempts.
abbrev Alike : Account → Account → Type 0
Alike a b = SameDay a.state b.state × (b.attempts ≡ a.attempts)

set_group-Alike :
    (g h : QuotaGroup) (a : Account) (f : QuotaGroup → Account)
    → Alike (f g) a
    → Alike (f h) (set_group g a f h)
set_group-Alike abuseipdb_check abuseipdb_check a f k = k
set_group-Alike abuseipdb_check virustotal a f k = ((refl, refl), refl)
set_group-Alike virustotal abuseipdb_check a f k = ((refl, refl), refl)
set_group-Alike virustotal virustotal a f k = k

module _ (g : QuotaGroup) (a : Account) (now : Millis) where
  saved-KeepsCounts :
      (s : Storage)
      → Alike (s.ledger.accounts g) a
      → now ≤ s.runtime.high_water
      → KeepsCounts s (record s { ledger = save g a now s.ledger })
  saved-KeepsCounts s k reached = record {
    day = λ h. (set_group-Alike g h a s.ledger.accounts k).0;
    attempts = λ h. (set_group-Alike g h a s.ledger.accounts k).1;
    abuseipdb = refl;
    virustotal = refl;
    mark_mono = omega arith;
    marked = λ m. omega arith;
  }

  commit-KeepsCounts :
      (fate : Fate) (s : Storage)
      → Alike (s.ledger.accounts g) a
      → now ≤ s.runtime.high_water
      → KeepsCounts s (commit fate (save g a now s.ledger) s).0
  unfolding commit
  commit-KeepsCounts completes s k r = saved-KeepsCounts s k r
  commit-KeepsCounts overdue s k r = saved-KeepsCounts s k r
  commit-KeepsCounts detached s k r = saved-KeepsCounts s k r
  commit-KeepsCounts _ s k r = SameTables-KeepsCounts (SameTables-refl s)

finish_feedback-KeepsCounts :
    (g : QuotaGroup) (pending : PendingFeedback) (s : Storage)
    (p : Storage × Result StorageError Unit)
    → KeepsCounts s p.0
    → KeepsCounts s (finish_feedback g pending p).0
unfolding finish_feedback
finish_feedback-KeepsCounts g pending s (t, ok _) h =
    KeepsCounts-trans h (SameTables-KeepsCounts (clear_pending-SameTables g (some pending) t))
finish_feedback-KeepsCounts g pending s (t, err e) h = h

module _ (c : Chrono) where
  feedback_tx-Alike :
      (limits : QuotaLimits) (now : Millis) (pending : PendingFeedback) (a b : Account)
      → feedback_tx c limits now pending a ≡ ok b
      → Alike a b
  unfolding feedback_tx write
  feedback_tx-Alike limits now pending a b h =
      let (applied, e, h') =
        bind-eq-ok (apply_feedback c pending.feedback now limits.unobserved_attempts a.state) _ h in
      ground (
        arith,
        apply_feedback-SameDay c pending.feedback now limits.unobserved_attempts a.state applied e,
      )

  run_feedback-KeepsCounts :
      (g : QuotaGroup) (pending : PendingFeedback) (turn : Turn) (now : Millis) (s : Storage)
      (tx : Result StorageError Account)
      → now ≤ s.runtime.high_water
      → ((a : Account) → tx ≡ ok a → Alike (s.ledger.accounts g) a)
      → KeepsCounts s (run_feedback g pending turn now s tx).0
  unfolding run_feedback
  run_feedback-KeepsCounts g pending turn now s (err e) r k =
      SameTables-KeepsCounts (SameTables-refl s)
  run_feedback-KeepsCounts g pending turn now s (ok a) r k =
      finish_feedback-KeepsCounts g pending s _
        (commit-KeepsCounts g a now turn.fate s (k a refl) r)

  persist_pending-KeepsCounts :
      (p : ProviderId) (turn : Turn) (seen : Storage) (o : Option PendingFeedback)
      → KeepsCounts seen (persist_pending c p turn seen o).0
  unfolding persist_pending
  persist_pending-KeepsCounts p turn seen none = SameTables-KeepsCounts (SameTables-refl seen)
  persist_pending-KeepsCounts p turn seen (some pending) =
      let kept = retain_all-SameTables turn.arrived seen in
      KeepsCounts-trans (SameTables-KeepsCounts kept) (
        run_feedback-KeepsCounts (quota_group p) pending turn seen.runtime.high_water
          (retain_all turn.arrived seen) _ kept.later
          (λ a e.
            rw kept.ledger
              (feedback_tx-Alike (limits seen p) seen.runtime.high_water pending _ a e)))

  feedback_gated-KeepsCounts :
      (p : ProviderId) (turn : Turn) (s : Storage) → KeepsCounts s (feedback_gated c p turn s).0
  unfolding feedback_gated
  feedback_gated-KeepsCounts p turn s =
      KeepsCounts-trans
        (SameTables-KeepsCounts (observe-SameTables (c.timestamp_millis turn.wall) s))
        (persist_pending-KeepsCounts p turn _ _)

  pub feedback-KeepsCounts :
      (p : ProviderId) (f : QuotaFeedback) (turn : Turn) (s : Storage)
      → KeepsCounts s (feedback c p f turn s).0
  unfolding feedback
  feedback-KeepsCounts p f turn s =
      let retained = SameTables-KeepsCounts (retain-SameTables (quota_group p) f s) in
      bounded-KeepsCounts turn.fate s _ _ retained (
        KeepsCounts-trans retained (feedback_gated-KeepsCounts p turn (retain (quota_group p) f s)))

  pub retry_after-KeepsCounts :
      (p : ProviderId) (turn : Turn) (s : Storage) → KeepsCounts s (retry_after c p turn s).0
  unfolding retry_after
  retry_after-KeepsCounts p turn s =
      let kept = SameTables-KeepsCounts (SameTables-refl s) in
      bounded-KeepsCounts turn.fate s s _ kept kept

  restarted :
      (wall : DateTime) (s t : Storage)
      → initialize c wall s ≡ ok t
      → (t.ledger ≡ s.ledger)
        × (t.abuseipdb_limits ≡ s.abuseipdb_limits)
        × (t.virustotal_limits ≡ s.virustotal_limits)
        × (s.ledger.clock_high_water ≤ t.runtime.high_water)
  unfolding initialize
  restarted wall s t h = let (_, _, h') = bind-eq-ok (check_tables c s.ledger) _ h in ground arith

  or_stay-KeepsCounts :
      (s : Storage) (r : Result StorageError Storage)
      → ((t : Storage)
          → r ≡ ok t
          → (t.ledger ≡ s.ledger)
            × (t.abuseipdb_limits ≡ s.abuseipdb_limits)
            × (t.virustotal_limits ≡ s.virustotal_limits)
            × (s.ledger.clock_high_water ≤ t.runtime.high_water))
      → KeepsCounts s (or_stay s r)
  unfolding or_stay
  or_stay-KeepsCounts s (err e) h = SameTables-KeepsCounts (SameTables-refl s)
  or_stay-KeepsCounts s (ok t) h =
      let (ledger, first, second, later) = h t refl in
      record {
        day = λ g. rw ledger (refl, refl);
        attempts = λ g. rw ledger;
        abuseipdb = first;
        virustotal = second;
        mark_mono = rw ledger (le_refl _);
        marked = λ m. rw ledger later;
      }

  pub restart-KeepsCounts :
      (wall : DateTime) (s : Storage) → KeepsCounts s (or_stay s (initialize c wall s))
  restart-KeepsCounts wall s = or_stay-KeepsCounts s _ (restarted wall s)
