-- ===== src/Storage/Service.antt =====
-- `struct Storage` of src/storage.rs and the methods that keep the quota: `reserve`, `retry_after`
-- and `feedback`. The gate serialises the methods, so each is one function on the state; what the
-- environment decides of a call is its `Turn`.
pub mod Effect
pub mod Transaction
pub mod Run
pub mod Keeps
pub mod Daily
pub mod DailyCap
pub mod Minute
pub mod MinuteCap
pub mod Retained
pub mod Snapshot
pub mod Numbered
pub mod Dispatch
pub mod Behind
use Prim.Native.Nat.{ℕ}
use rust_enrich.Common.{
  suc, ◌+◌, ◌-◌, ◌%◌, ◌^◌, max, Bool, true, false, Option, none, some, List, [], ◌∷◌, Result, ok,
  err, ok_or, is_ok, is_some, ◌>>=◌, ltb, ◌==◌, if◌then◌else◌, is_some_and, keep,
}
use rust_enrich.Common.Clock.{Chrono, DateTime, Millis}
use rust_enrich.Domain.Types.{ProviderId, IndicatorKind, Status}
use rust_enrich.Storage.Types.{
  StorageError, timeout, unavailable, invalid_data, ReservationError, storage, limited,
  QuotaFeedback, PendingFeedback, QuotaLimits, QuotaGroup, quota_group, same_group,
}
use rust_enrich.Storage.Quota.{
  QuotaState, QuotaDecision, advance_day, apply_feedback, ensure_unknown_cooldown, write,
  delay_seconds, quota_decision,
}
use rust_enrich.Storage.Quota.Merge.{merge_feedback}

-- A group's row of `quota_state` and the times of its rows of `quota_attempts`, newest first.
pub record Account : Type 0 where
  pub state : QuotaState
  pub attempts : List Millis

-- The quota tables; `initialize` gives each group its row, and nothing removes one.
pub record Ledger : Type 0 where
  pub accounts : QuotaGroup → Account
  pub clock_high_water : Millis

pub record RuntimeState : Type 0 where
  pub high_water : Millis
  pub next_generation : ℕ
  pub pending : QuotaGroup → Option PendingFeedback

pub record Storage : Type 0 where
  pub ledger : Ledger
  pub runtime : RuntimeState
  pub available : Bool
  pub abuseipdb_limits : QuotaLimits
  pub virustotal_limits : QuotaLimits

unfoldable pub limits : Storage → ProviderId → QuotaLimits
limits s ProviderId.abuseipdb = s.abuseipdb_limits
limits s ProviderId.virustotal = s.virustotal_limits

-- How the call's transaction ends: it completes; it completes behind its deadline; its deadline is
-- past at once; it fails and rolls back; or its deadline cuts it off while SQLite commits.
pub data Fate : Type 0 where
  completes overdue expires detached : Fate
  fails : StorageError → Fate

-- What the environment decides of one call: the clock, its end, and the feedback that other tasks
-- retain while its transaction runs.
pub record Turn : Type 0 where
  pub wall : DateTime
  pub fate : Fate
  pub arrived : List (QuotaGroup × QuotaFeedback)

abbrev pub set_group {ℓ} : {A : Type ℓ} → QuotaGroup → A → (QuotaGroup → A) → QuotaGroup → A
set_group g a f h = if same_group g h then a else f h

-- `runtime.high_water = runtime.high_water.max(wall)`
unfoldable pub observe : Millis → Storage → Storage
observe wall s = record s {
  runtime = record s.runtime { high_water = max s.runtime.high_water wall };
}

merge_pending : Option PendingFeedback → QuotaFeedback → QuotaFeedback
merge_pending none new = new
merge_pending (some old) new = merge_feedback old.feedback new

-- The first block of `feedback`: it retains the observation in memory.
unfoldable pub retain : QuotaGroup → QuotaFeedback → Storage → Storage
unfolding merge_pending
retain g f s =
    let generation = (s.runtime.next_generation + 1) % 2 ^ 64 in
    record s {
      runtime = record s.runtime {
        next_generation = generation;
        pending =
            set_group g
              (some (record {
                generation = generation;
                feedback = merge_pending (s.runtime.pending g) f;
              }))
              s.runtime.pending;
      };
    }

unfoldable pub retain_all : List (QuotaGroup × QuotaFeedback) → Storage → Storage
unfolding retain
retain_all [] s = s
retain_all ((g, f) ∷ rest) s = retain_all rest (retain g f s)

unfoldable pub clear_pending : QuotaGroup → Option PendingFeedback → Storage → Storage
clear_pending g none s = s
clear_pending g (some saved) s =
    if is_some_and (s.runtime.pending g) (λ pending. pending.generation == saved.generation)
    then record s { runtime = record s.runtime { pending = set_group g none s.runtime.pending } }
    else s

-- `tx.commit().await`: the new tables and whether the caller goes on
unfoldable pub commit : Fate → Ledger → Storage → Storage × Result StorageError Unit
commit completes l s = (record s { ledger = l }, ok tt)
commit overdue l s = (record s { ledger = l }, ok tt)
commit expires l s = (s, err timeout)
commit detached l s = (record s { ledger = l }, err timeout)
commit (fails e) l s = (s, err e)

-- `bounded`, around an operation that has been given the same fate
unfoldable pub bounded :
    {A : Type 0}
    → Fate
    → Storage
    → Storage × Result StorageError A
    → Storage × Result StorageError A
bounded expires s (s', r) = (record s { available = false }, err timeout)
bounded overdue s (s', r) = (record s' { available = false }, err timeout)
bounded fate s (s', r) = (record s' { available = is_ok r }, r)

-- `persist_high_water` and the update of one group
abbrev pub save : QuotaGroup → Account → Millis → Ledger → Ledger
save g a now l = record {
  accounts = set_group g a l.accounts;
  clock_high_water = max l.clock_high_water now;
}

unfoldable pub apply_pending :
    Chrono → Option PendingFeedback → Millis → ℕ → QuotaState → Result StorageError QuotaState
apply_pending c none now unobserved s = ok s
apply_pending c (some pending) now unobserved s = apply_feedback c pending.feedback now unobserved s

-- `checked_add(1)` on a `u64`
count_attempt : QuotaState → Result StorageError QuotaState
count_attempt s =
    if ltb (s.daily_consumed + 1) (2 ^ 64)
    then ok (record s {
      daily_consumed = s.daily_consumed + 1;
      provider_remaining = elim s.provider_remaining [ none ↦ none | some n ↦ some (n - 1) ];
    })
    else err invalid_data

-- the branch `if !decision.blocked`
unfoldable pub take_attempt :
    QuotaDecision → QuotaLimits → Millis → Account → Result StorageError Account
unfolding count_attempt
take_attempt decision limits now a = if decision.blocked then ok a else (do
  counted ← count_attempt a.state
  ok (record {
    state = ensure_unknown_cooldown now counted;
    attempts = (if ltb 0 limits.minute then now ∷ a.attempts else a.attempts);
  }))

-- The transaction of `reserve`: the decision, and the account to save.
unfoldable pub reserve_tx :
    Chrono
    → QuotaLimits
    → DateTime
    → Millis
    → Option PendingFeedback
    → Account
    → Result StorageError (QuotaDecision × Account)
reserve_tx c limits wall now pending a = do
  today ← advance_day c wall a.state
  state ← apply_pending c pending now limits.unobserved_attempts today
  let recent = keep (ltb (now - 60000)) a.attempts
  decision ← quota_decision c limits recent state now now
  taken ← take_attempt decision limits now (record { state = state; attempts = recent })
  written ← write taken.state
  ok (decision, record { state = written; attempts = taken.attempts })

-- what `reserve` returns inside `bounded`: a denial is a value there
abbrev pub Reservation : Type 0
Reservation = Result StorageError (Result ReservationError Unit)

unfoldable pub answer : QuotaDecision → Result ReservationError Unit
answer d = if d.blocked then err (limited d.retry_after) else ok tt

-- what follows the commit: nothing is dispatched past feedback that is still pending
finish :
    QuotaGroup
    → Option PendingFeedback
    → QuotaDecision
    → Storage × Result StorageError Unit
    → Storage × Reservation
unfolding clear_pending answer
finish g pending d (s, err e) = (s, err e)
finish g pending d (s, ok _) =
    let s' = clear_pending g pending s in
    if is_some (s'.runtime.pending g) then (s', err unavailable) else (s', ok (answer d))

run_reserve :
    QuotaGroup
    → Option PendingFeedback
    → Turn
    → Millis
    → Storage
    → Result StorageError (QuotaDecision × Account)
    → Storage × Reservation
unfolding finish
run_reserve g pending turn now s (err e) = (s, err e)
run_reserve g pending turn now s (ok (d, a)) =
    finish g pending d (commit turn.fate (save g a now s.ledger) s)

abbrev pub flatten : Reservation → Result ReservationError Unit
flatten (err e) = err (storage e)
flatten (ok r) = r

-- the block of `reserve` inside `bounded`, from the state that the gate admits it to
reserve_gated : Chrono → ProviderId → Turn → Storage → Storage × Reservation
unfolding run_reserve
reserve_gated c provider turn s =
    let g = quota_group provider in
    let wall = c.timestamp_millis turn.wall in
    let seen = observe wall s in
    let now = seen.runtime.high_water in
    let pending = seen.runtime.pending g in
    if ltb wall now
    then (seen, ok (err (limited (some (delay_seconds now wall)))))
    else run_reserve g pending turn now (retain_all turn.arrived seen)
        (reserve_tx c (limits s provider) turn.wall now pending (seen.ledger.accounts g))

unfoldable pub reserve :
    Chrono → ProviderId → Turn → Storage → Storage × Result ReservationError Unit
unfolding reserve_gated
reserve c provider turn s =
    let (s', r) = bounded turn.fate s (reserve_gated c provider turn s) in (s', flatten r)

abbrev pub retry_tx :
    Chrono
    → QuotaLimits
    → Millis
    → Millis
    → Option PendingFeedback
    → Account
    → Result StorageError (Option ℕ)
retry_tx c limits wall now pending a = do
  effective ← ok_or (c.from_timestamp_millis now) invalid_data
  today ← advance_day c effective a.state
  state ← apply_pending c pending now limits.unobserved_attempts today
  decision ← quota_decision c limits a.attempts state now wall
  ok decision.retry_after

-- It rolls its transaction back, and does not record the time that it sees.
unfoldable pub retry_after :
    Chrono → ProviderId → Turn → Storage → Storage × Result StorageError (Option ℕ)
retry_after c provider turn s =
    let g = quota_group provider in
    let wall = c.timestamp_millis turn.wall in
    let now = max s.runtime.high_water wall in
    let answer =
      retry_tx c (limits s provider) wall now (s.runtime.pending g) (s.ledger.accounts g) in
    let ended : Result StorageError (Option ℕ) = elim turn.fate [
      | fails e ↦ err e
      | detached ↦ err timeout
      | _ ↦ answer
    ] in
    bounded turn.fate s (s, ended)

feedback_tx :
    Chrono → QuotaLimits → Millis → PendingFeedback → Account → Result StorageError Account
feedback_tx c limits now pending a = do
  applied ← apply_feedback c pending.feedback now limits.unobserved_attempts a.state
  written ← write applied
  ok (record a { state = written })

finish_feedback :
    QuotaGroup
    → PendingFeedback
    → Storage × Result StorageError Unit
    → Storage × Result StorageError Unit
unfolding clear_pending
finish_feedback g pending (s, err e) = (s, err e)
finish_feedback g pending (s, ok _) = (clear_pending g (some pending) s, ok tt)

run_feedback :
    QuotaGroup
    → PendingFeedback
    → Turn
    → Millis
    → Storage
    → Result StorageError Account
    → Storage × Result StorageError Unit
unfolding finish_feedback
run_feedback g pending turn now s (err e) = (s, err e)
run_feedback g pending turn now s (ok a) =
    finish_feedback g pending (commit turn.fate (save g a now s.ledger) s)

persist_pending :
    Chrono
    → ProviderId
    → Turn
    → Storage
    → Option PendingFeedback
    → Storage × Result StorageError Unit
unfolding run_feedback feedback_tx
persist_pending c provider turn seen none = (seen, ok tt)
persist_pending c provider turn seen (some pending) =
    let g = quota_group provider in
    let now = seen.runtime.high_water in
    run_feedback g pending turn now (retain_all turn.arrived seen)
      (feedback_tx c (limits seen provider) now pending (seen.ledger.accounts g))

-- the block of `feedback` inside `bounded`
feedback_gated : Chrono → ProviderId → Turn → Storage → Storage × Result StorageError Unit
unfolding persist_pending
feedback_gated c provider turn s =
    let seen = observe (c.timestamp_millis turn.wall) s in
    persist_pending c provider turn seen (seen.runtime.pending (quota_group provider))

unfoldable pub feedback :
    Chrono → ProviderId → QuotaFeedback → Turn → Storage → Storage × Result StorageError Unit
unfolding feedback_gated
feedback c provider f turn s =
    let retained = retain (quota_group provider) f s in
    bounded turn.fate retained (feedback_gated c provider turn retained)
