-- ===== src/Storage/Service/Run.antt =====
-- Histories of the quota: any calls by any tasks, with any clock and any failures, and restarts of
-- the process between them. `initialize` of src/storage.rs as far as the quota goes.
use rust_enrich.Common.{
  ◌≤◌, ◌≡◌, refl, max, Bool, true, false, Option, none, some, List, [], ◌∷◌, Result, ok, err, ok_or,
  ◌>>◌, if◌then◌else◌,
}
use native.Mathlib.Nat.{le_refl, le_trans}
use rust_enrich.Common.Clock.{Chrono, DateTime, Millis}
use rust_enrich.Domain.Types.{ProviderId, abuseipdb, virustotal}
use rust_enrich.Storage.Types.{
  StorageError, invalid_data, ReservationError, QuotaFeedback, QuotaGroup,
}
use rust_enrich.Storage.Quota.{QuotaState}
use rust_enrich.Storage.Quota.Window.{SameDay}
use rust_enrich.Storage.Service.{Ledger, Storage, Turn, reserve, retry_after, feedback}
use rust_enrich.Storage.Service.Effect.{SameTables}

-- the checks of `initialize` on a group's row
check_account : Chrono → QuotaState → Result StorageError Unit
check_account c s = do
  ok_or (c.parse_date s.day) invalid_data
  check_time s.cooldown_until
  check_time s.provider_reset_at
  where
    check_time : Option Millis → Result StorageError Unit
    check_time none = ok tt
    check_time (some t) = do ok_or (c.from_timestamp_millis t) invalid_data; ok tt

unfoldable pub check_tables : Chrono → Ledger → Result StorageError Unit
unfolding check_account
check_tables c l = do
  ok_or (c.from_timestamp_millis l.clock_high_water) invalid_data
  check_account c (l.accounts QuotaGroup.abuseipdb_check).state
  check_account c (l.accounts QuotaGroup.virustotal).state

-- `initialize` on existing tables: what it checks, and the clock's mark that it starts from.
unfoldable pub initialize : Chrono → DateTime → Storage → Result StorageError Storage
initialize c wall s = do
  check_tables c s.ledger
  ok (record s {
    runtime = record {
      high_water = max s.ledger.clock_high_water (c.timestamp_millis wall);
      next_generation = 0;
      pending = λ g. none;
    };
    available = true;
  })

pub data Op : Type 0 where
  reserves : ProviderId → Turn → Op
  feeds : ProviderId → QuotaFeedback → Turn → Op
  asks : ProviderId → Turn → Op
  restarts : DateTime → Op

-- A process that cannot start leaves the tables as they are.
unfoldable pub or_stay : Storage → Result StorageError Storage → Storage
or_stay s (ok t) = t
or_stay s (err e) = s

unfoldable pub step : Chrono → Op → Storage → Storage
unfolding or_stay
step c (reserves p turn) s = (reserve c p turn s).0
step c (feeds p f turn) s = (feedback c p f turn s).0
step c (asks p turn) s = (retry_after c p turn s).0
step c (restarts wall) s = or_stay s (initialize c wall s)

abbrev pub same_provider : ProviderId → ProviderId → Bool
same_provider abuseipdb abuseipdb = true
same_provider virustotal virustotal = true
same_provider _ _ = false

abbrev pub granted_at : Bool → DateTime → Result ReservationError Unit → Option DateTime
granted_at mine wall (ok _) = if mine then some wall else none
granted_at mine wall (err _) = none

-- The moment at which this step grants a request to the provider.
unfoldable pub grant : Chrono → ProviderId → Op → Storage → Option DateTime
grant c p (reserves q turn) s = granted_at (same_provider p q) turn.wall (reserve c q turn s).1
grant c p _ s = none

abbrev pub push {ℓ} : {A : Type ℓ} → Option A → List A → List A
push none xs = xs
push (some x) xs = x ∷ xs

-- The state behind a history, and the moments of the provider's grants, newest first.
unfoldable pub run :
    Chrono → ProviderId → List Op → Storage → List DateTime → Storage × List DateTime
unfolding step grant
run c p [] s log = (s, log)
run c p (op ∷ ops) s log = run c p ops (step c op s) (push (grant c p op s) log)

-- A step that grants nothing: every account keeps its day, its count and its attempts.
pub record KeepsCounts (s t : Storage) : Type 0 where
  pub day : (g : QuotaGroup) → SameDay (s.ledger.accounts g).state (t.ledger.accounts g).state
  pub attempts : (g : QuotaGroup) → (t.ledger.accounts g).attempts ≡ (s.ledger.accounts g).attempts
  pub abuseipdb : t.abuseipdb_limits ≡ s.abuseipdb_limits
  pub virustotal : t.virustotal_limits ≡ s.virustotal_limits
  pub mark_mono : s.ledger.clock_high_water ≤ t.ledger.clock_high_water
  pub marked :
      s.ledger.clock_high_water ≤ s.runtime.high_water
      → t.ledger.clock_high_water ≤ t.runtime.high_water

pub SameTables-KeepsCounts : {s t : Storage} → SameTables s t → KeepsCounts s t
SameTables-KeepsCounts {s} {t} h = record {
  day = λ g. rw h.ledger (refl, refl);
  attempts = λ g. rw h.ledger;
  abuseipdb = h.abuseipdb;
  virustotal = h.virustotal;
  mark_mono = rw h.ledger (le_refl _);
  marked = λ m. rw h.ledger (le_trans m h.later);
}
