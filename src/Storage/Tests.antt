-- ===== src/Storage/Tests.antt =====
-- The theorems on src/storage.rs at concrete inputs.
use rust_enrich.Common.{
  ℕ, ◌≤◌, ◌<◌, ◌≡◌, refl, true, false, max, Option, none, some, List, [], ◌∷◌, ok, err, arith, ◌^◌,
  ◌+◌, ◌*◌, ◌-◌, keep, ltb, drop, length,
}
use rust_enrich.Domain.Types.{virustotal}
use rust_enrich.Storage.Types.{QuotaLimits, QuotaFeedback, limited, quota_group}
use rust_enrich.Storage.Quota.{
  QuotaState, quota_decision, QuotaDecision, expire_feedback, ensure_unknown_cooldown, write,
  apply_feedback, advance_day, delay_seconds,
}
use rust_enrich.Storage.Quota.Merge.{merge_feedback, merge_feedback_comm}
use rust_enrich.Storage.Quota.Decision.{
  is_held, blocked-eq-is_held, retry_after_cooldown, retry_after_reset,
}
use rust_enrich.Storage.Quota.Window.{advance_day_lem, carried}
use rust_enrich.Storage.Service.{
  Account, Turn, Fate, Storage, completes, limits, observe, retain_all, bounded, commit,
  apply_pending, take_attempt, answer, clear_pending, reserve, reserve_tx,
}
use rust_enrich.Storage.Service.Run.{Op, reserves, restarts, run}
use rust_enrich.Storage.Service.Daily.{grants_on}
use rust_enrich.Storage.Service.DailyCap.{daily_cap}
use rust_enrich.Storage.Service.Minute.{times, in_minute}
use rust_enrich.Storage.Service.MinuteCap.{minute_cap}
use rust_enrich.Storage.Service.Snapshot.{is_cooling}
use rust_enrich.Storage.Service.Retained.{is_arrived}
use rust_enrich.Storage.Service.Dispatch.{reserve_grant}
use rust_enrich.Storage.Service.Behind.{reserve_behind}
use rust_enrich.Storage.Service.Transaction.{reserve_tx-granted}
use rust_enrich.Domain.Types.{IndicatorKind}
use rust_enrich.Storage.Cache.{
  CacheLimits, CacheEntry, Decoded, total_bytes, ttl, evict, evict_rows, drop_rows, get_row,
  put_row, delete_expired, is_expired, upsert,
}
use rust_enrich.Storage.Cache.Evict.{evict-Fits}
use rust_enrich.Storage.Cache.Entries.{get_row-fresh, put_row-Fits}
use rust_enrich.Storage.Example.{
  chrono, chrono-IsChrono, fresh_state, fresh_account, two_a_day, fresh_storage,
}

abbrev at : ℕ → Turn
at t = record { wall = t; fate = completes; arrived = [] }

-- Four requests over three minutes of one day, and a restart between them.
abbrev calls : List Op
calls =
    reserves virustotal (at 1)
    ∷ reserves virustotal (at 2)
    ∷ reserves virustotal (at 70000)
    ∷ restarts 70001
    ∷ reserves virustotal (at 150000)
    ∷ []

daily_cap_example :
    grants_on chrono 0 (run chrono virustotal calls fresh_storage []).1
    ≤ (limits fresh_storage virustotal).day
daily_cap_example = daily_cap chrono virustotal chrono-IsChrono fresh_storage 0 calls 0 refl

limits_example : (limits fresh_storage virustotal).minute ≡ 1
unfolding limits
limits_example = refl

minute_cap_example :
    in_minute 0 (times chrono (run chrono virustotal calls fresh_storage []).1)
    ≤ (limits fresh_storage virustotal).minute
minute_cap_example =
    minute_cap chrono virustotal chrono-IsChrono fresh_storage calls 0
      (rw limits_example (omega arith)) (omega arith)

granted_example : (reserve chrono virustotal (at 1) fresh_storage).1 ≡ ok tt
unfolding reserve observe retain_all bounded commit reserve_tx advance_day expire_feedback
    apply_pending quota_decision take_attempt ensure_unknown_cooldown write answer clear_pending
    limits quota_group
granted_example = refl

reserve_grant_example :
    (completes ≡ Fate.completes)
    × (is_cooling chrono (max 0 1) none ≡ false)
    × (is_arrived (quota_group virustotal) [] ≡ false)
    × ((reserve chrono virustotal (at 1) fresh_storage).0.runtime.pending (quota_group virustotal)
        ≡ none)
    × ((reserve chrono virustotal (at 1) fresh_storage).0.available ≡ true)
reserve_grant_example =
    reserve_grant chrono virustotal (at 1) fresh_storage granted_example refl (omega arith)

abbrev ahead : Storage
ahead = record fresh_storage { runtime = record fresh_storage.runtime { high_water = 9000 } }

reserve_behind_example :
    (n : ℕ) × ((reserve chrono virustotal (at 1) ahead).1 ≡ err (limited (some n)))
    × (9000 ≤ 1 + 1000 * n)
    × (1 + 1000 * n < 9000 + 1000)
    × ((reserve chrono virustotal (at 1) ahead).0.ledger ≡ ahead.ledger)
reserve_behind_example =
    reserve_behind chrono virustotal (at 1) ahead (omega arith) (omega arith) refl

-- A day's cap that is reached, in a cooldown, with the provider's quota used up; 2^63 is the year 1970.
abbrev held_state : QuotaState
held_state = record {
  day = "";
  daily_consumed = 2;
  cooldown_until = some (2 ^ 63 + 5000);
  cooldown_unknown = false;
  provider_remaining = some 0;
  provider_reset_at = some (2 ^ 63 + 9000);
}

abbrev held_decision : QuotaDecision
held_decision = record { blocked = true; retry_after = some 9 }

held_example :
    quota_decision chrono
      (record { minute = 0; day = 5; unobserved_attempts = 1 })
      []
      held_state
      (2 ^ 63)
      (2 ^ 63)
    ≡ ok held_decision
unfolding quota_decision delay_seconds
held_example = refl

abbrev no_minute : QuotaLimits
no_minute = record { minute = 0; day = 5; unobserved_attempts = 1 }

blocked-eq-is_held_example : true ≡ is_held no_minute [] held_state (2 ^ 63) (2 ^ 63)
blocked-eq-is_held_example =
    blocked-eq-is_held chrono no_minute [] held_state (2 ^ 63) (2 ^ 63) held_decision held_example

retry_after_cooldown_example : (true ≡ true) × (1 ≤ 9) × (2 ^ 63 + 5000 ≤ 2 ^ 63 + 1000 * 9)
retry_after_cooldown_example =
    retry_after_cooldown chrono no_minute [] held_state (2 ^ 63) (2 ^ 63) held_decision 9
      (2 ^ 63 + 5000) held_example refl (omega arith) refl (omega arith) (omega arith)

retry_after_reset_example :
    (reset : ℕ) × (held_state.provider_reset_at ≡ some reset)
    × (2 ^ 63 < reset)
    × (reset ≤ 2 ^ 63 + 1000 * 9)
retry_after_reset_example =
    retry_after_reset chrono no_minute [] held_state (2 ^ 63) (2 ^ 63) held_decision 9 held_example
      refl (omega arith) refl refl

abbrev free_decision : QuotaDecision
free_decision = record { blocked = false; retry_after = none }

abbrev one_granted : Account
one_granted = record { state = record fresh_state { daily_consumed = 1 }; attempts = 7 ∷ [] }

granted_tx_example :
    reserve_tx chrono two_a_day 7 7 none fresh_account ≡ ok (free_decision, one_granted)
unfolding reserve_tx advance_day expire_feedback apply_pending quota_decision take_attempt
    ensure_unknown_cooldown write
granted_tx_example = refl

reserve_tx-granted_example :
    (saved : ℕ) × (chrono.parse_date fresh_state.day ≡ some saved)
    × (chrono.parse_date one_granted.state.day ≡ some 0)
    × (1 ≡ carried saved 0 0 + 1)
    × (carried saved 0 0 < 2)
reserve_tx-granted_example =
    reserve_tx-granted chrono chrono-IsChrono two_a_day 7 7 none fresh_account one_granted
      free_decision granted_tx_example refl

abbrev wait : QuotaDecision
wait = record { blocked = true; retry_after = some 60 }

held_tx_example : reserve_tx chrono two_a_day 8 8 none one_granted ≡ ok (wait, one_granted)
unfolding reserve_tx advance_day expire_feedback apply_pending quota_decision take_attempt
    ensure_unknown_cooldown write delay_seconds
held_tx_example = refl

abbrev cooling : QuotaFeedback
cooling = record {
  cooldown_until = some 50;
  unknown_reset = false;
  remaining = some 3;
  reset_at = none;
}

abbrev resetting : QuotaFeedback
resetting = record {
  cooldown_until = none;
  unknown_reset = true;
  remaining = some 1;
  reset_at = some 90;
}

merge_feedback_comm_example : merge_feedback cooling resetting ≡ merge_feedback resetting cooling
merge_feedback_comm_example = merge_feedback_comm cooling resetting

abbrev spent : QuotaState
spent = record fresh_state { daily_consumed = 4 }

abbrev next_day : QuotaState
next_day = record fresh_state { day = "d" }

next_day_example : advance_day chrono 86400001 spent ≡ ok next_day
unfolding advance_day expire_feedback
next_day_example = refl

advance_day_lem_example :
    (saved : ℕ) × (chrono.parse_date spent.day ≡ some saved)
    × (saved ≤ chrono.date_naive 86400001)
    × (chrono.parse_date next_day.day ≡ some (chrono.date_naive 86400001))
    × (0 ≡ carried saved (chrono.date_naive 86400001) 4)
advance_day_lem_example =
    advance_day_lem chrono chrono-IsChrono 86400001 spent next_day next_day_example

abbrev cooled : QuotaState
cooled = record spent { cooldown_until = some 50; provider_remaining = some 2 }

cooled_example : apply_feedback chrono cooling 9 1 spent ≡ ok cooled
unfolding apply_feedback expire_feedback ensure_unknown_cooldown
cooled_example = refl

abbrev small : CacheLimits
small = record {
  max_entries = 1;
  max_bytes = 10;
  ip_ttl = 100;
  url_ttl = 100;
  hash_ttl = 100;
  not_found_ttl = 50;
}

abbrev entry : ℕ → CacheEntry
entry t = record {
  provider = virustotal;
  cache_key = t ∷ [];
  payload_version = 1;
  kind = IndicatorKind.ip;
  missing = false;
  fetched_at = t;
  expires_at = t + 100;
  payload = 7 ∷ [];
  payload_bytes = 4;
}

evict-Fits_example :
    (n : ℕ) × (evict small (entry 1 ∷ entry 2 ∷ entry 3 ∷ [])
      ≡ ok (drop n (entry 1 ∷ entry 2 ∷ entry 3 ∷ [])))
    × (length (drop n (entry 1 ∷ entry 2 ∷ entry 3 ∷ [])) ≤ 1)
    × (total_bytes (drop n (entry 1 ∷ entry 2 ∷ entry 3 ∷ [])) ≤ 10)
evict-Fits_example = evict-Fits small (entry 1 ∷ entry 2 ∷ entry 3 ∷ [])

abbrev decode : List ℕ → Option ℕ
decode payload = some 3

abbrev view : ℕ → Decoded
view t = record { missing = some false; fetched_at = some t; has_error = false }

hit_example :
    (get_row chrono decode view small 50 50 (entry 3 ∷ []) (some (entry 3))).1 ≡ ok (some (3, 103))
unfolding get_row ttl
hit_example = refl

get_row-fresh_example : (3 ≤ 50) × (50 < 103) × (50 < 3 + small.ip_ttl)
get_row-fresh_example =
    get_row-fresh chrono decode view small 50 50 (entry 3 ∷ []) (entry 3) (3, 103) hit_example

put_example : put_row small 50 50 (entry 4) (entry 3 ∷ []) ≡ ok (entry 4 ∷ [], true)
unfolding put_row delete_expired is_expired ttl upsert evict evict_rows drop_rows
    rust_enrich.Common.Text.bytes
put_example = refl

put_row-Fits_example : (1 ≤ 1) × (4 ≤ 10)
put_row-Fits_example =
    put_row-Fits small 50 50 (entry 4) (entry 3 ∷ []) (entry 4 ∷ []) true (omega arith)
      (omega arith) put_example
