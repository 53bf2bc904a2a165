-- ===== src/Storage/Service/Numbered.antt =====
-- The pending feedback of each group has at most the counter's generation: `retain` and the calls keep that, while the
-- counter does not wrap.
use rust_enrich.Common.{
  ◌+◌, ◌<◌, ◌≡◌, ◌^◌, Bool, true, false, Option, none, some, List, [], ◌∷◌, length, Result, ok, err,
  ltb, if◌then◌else◌, arith,
}
use rust_enrich.Common.Clock.{Chrono, Millis}
use rust_enrich.Domain.Types.{ProviderId}
use rust_enrich.Storage.Types.{
  StorageError, PendingFeedback, QuotaFeedback, QuotaGroup, quota_group,
}
use rust_enrich.Storage.Quota.{QuotaDecision}
use rust_enrich.Storage.Service.{
  Account, Ledger, Storage, Turn, Fate, completes, overdue, expires, detached, fails, observe,
  retain, retain_all, clear_pending, commit, bounded, finish, run_reserve, reserve_gated, reserve,
  finish_feedback, run_feedback, persist_pending, feedback_gated, feedback,
}
use rust_enrich.Storage.Service.Retained.{is_later, retain_counts}

abbrev pub IsNumbered : QuotaGroup → Storage → Type 0
IsNumbered g s = is_later s.runtime.next_generation (s.runtime.pending g) ≡ false

retain-IsNumbered :
    (g h : QuotaGroup) (f : QuotaFeedback) (s : Storage)
    → s.runtime.next_generation + 1 < 2 ^ 64
    → IsNumbered g s
    → IsNumbered g (retain h f s)
unfolding retain
retain-IsNumbered g h f s fits was = ground arith

retain_all-IsNumbered :
    (g : QuotaGroup) (arrived : List (QuotaGroup × QuotaFeedback)) (s : Storage)
    → s.runtime.next_generation + length arrived < 2 ^ 64
    → IsNumbered g s
    → IsNumbered g (retain_all arrived s)
unfolding retain_all retain
retain_all-IsNumbered g [] s fits was = was
retain_all-IsNumbered g ((h, f) ∷ rest) s fits was =
    retain_all-IsNumbered g rest (retain h f s) (ground arith)
      (retain-IsNumbered g h f s (ground arith) was)

finish-IsNumbered :
    (g h : QuotaGroup) (o : Option PendingFeedback) (d : QuotaDecision) (fate : Fate) (l : Ledger)
    (s : Storage)
    → IsNumbered g s
    → IsNumbered g (finish h o d (commit fate l s)).0
unfolding finish commit clear_pending
finish-IsNumbered g h o d fate l s was = ground arith

run-IsNumbered :
    (g h : QuotaGroup) (o : Option PendingFeedback) (turn : Turn) (now : Millis) (s : Storage)
    (tx : Result StorageError (QuotaDecision × Account))
    → IsNumbered g s
    → IsNumbered g (run_reserve h o turn now s tx).0
unfolding run_reserve
run-IsNumbered g h o turn now s (err e) was = was
run-IsNumbered g h o turn now s (ok (d, a)) was = finish-IsNumbered g h o d turn.fate _ s was

bounded-IsNumbered :
    {A : Type 0} (g : QuotaGroup) (fate : Fate) (s : Storage) (p : Storage × Result StorageError A)
    → IsNumbered g s
    → IsNumbered g p.0
    → IsNumbered g (bounded fate s p).0
unfolding bounded
bounded-IsNumbered g completes s (s', r) h k = k
bounded-IsNumbered g overdue s (s', r) h k = k
bounded-IsNumbered g expires s (s', r) h k = h
bounded-IsNumbered g detached s (s', r) h k = k
bounded-IsNumbered g (fails e) s (s', r) h k = k

if-IsNumbered :
    {A : Type 0} (g : QuotaGroup) (b : Bool) (p q : Storage × A)
    → IsNumbered g p.0
    → IsNumbered g q.0
    → IsNumbered g (if b then p else q).0
if-IsNumbered g true p q h k = h
if-IsNumbered g false p q h k = k

-- A reservation keeps the order of the generations, whatever arrives and however it ends.
pub reserve-IsNumbered :
    (c : Chrono) (p : ProviderId) (turn : Turn) (g : QuotaGroup) (s : Storage)
    → s.runtime.next_generation + length turn.arrived < 2 ^ 64
    → IsNumbered g s
    → IsNumbered g (reserve c p turn s).0
unfolding reserve reserve_gated observe
reserve-IsNumbered c p turn g s fits was =
    let wall = c.timestamp_millis turn.wall in
    let seen = observe wall s in
    bounded-IsNumbered g turn.fate s _ was (
      if-IsNumbered g (ltb wall seen.runtime.high_water) _ _ was (
        run-IsNumbered g (quota_group p) (seen.runtime.pending (quota_group p)) turn
          seen.runtime.high_water (retain_all turn.arrived seen) _
          (retain_all-IsNumbered g turn.arrived seen fits was)))

run_feedback-IsNumbered :
    (g h : QuotaGroup) (q : PendingFeedback) (turn : Turn) (now : Millis) (s : Storage)
    (tx : Result StorageError Account)
    → IsNumbered g s
    → IsNumbered g (run_feedback h q turn now s tx).0
unfolding run_feedback finish_feedback commit clear_pending
run_feedback-IsNumbered g h q turn now s (err e) was = was
run_feedback-IsNumbered g h q turn now s (ok a) was = ground arith

persist-IsNumbered :
    (c : Chrono) (p : ProviderId) (turn : Turn) (g : QuotaGroup) (s : Storage)
    (o : Option PendingFeedback)
    → s.runtime.next_generation + length turn.arrived < 2 ^ 64
    → IsNumbered g s
    → IsNumbered g (persist_pending c p turn s o).0
unfolding persist_pending
persist-IsNumbered c p turn g s none fits was = was
persist-IsNumbered c p turn g s (some q) fits was =
    run_feedback-IsNumbered g (quota_group p) q turn s.runtime.high_water
      (retain_all turn.arrived s) _ (retain_all-IsNumbered g turn.arrived s fits was)

-- So does `feedback`, which retains one observation more.
pub feedback-IsNumbered :
    (c : Chrono) (p : ProviderId) (f : QuotaFeedback) (turn : Turn) (g : QuotaGroup) (s : Storage)
    → s.runtime.next_generation + 1 + length turn.arrived < 2 ^ 64
    → IsNumbered g s
    → IsNumbered g (feedback c p f turn s).0
unfolding feedback feedback_gated observe
feedback-IsNumbered c p f turn g s fits was =
    let retained = retain (quota_group p) f s in
    let seen = observe (c.timestamp_millis turn.wall) retained in
    let kept = retain-IsNumbered g (quota_group p) f s (omega arith) was in
    let counted = retain_counts (quota_group p) f s (omega arith) in
    bounded-IsNumbered g turn.fate retained _ kept
      (persist-IsNumbered c p turn g seen (seen.runtime.pending (quota_group p)) (omega arith) kept)
