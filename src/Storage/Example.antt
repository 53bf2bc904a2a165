-- ===== src/Storage/Example.antt =====
-- A calendar and a storage to run the definitions on: days of a fixed length, written in strokes.
use rust_enrich.Common.{
  ℕ, zero, suc, ◌+◌, ◌*◌, ◌/◌, ◌≡◌, refl, ap, true, false, none, some, String, [], arith,
}
use rust_enrich.Common.Clock.{Chrono, IsChrono}
use rust_enrich.Storage.Types.{QuotaLimits}
use rust_enrich.Storage.Quota.{QuotaState}
use rust_enrich.Storage.Service.{Account, Storage}

abbrev strokes : ℕ → String
strokes zero = String.[]
strokes (suc n) = String.◌∷◌ "d" (strokes n)

abbrev count_strokes : String → ℕ
count_strokes String.[] = 0
count_strokes (String.◌∷◌ c s) = suc (count_strokes s)

count-strokes : (n : ℕ) → count_strokes (strokes n) ≡ n
count-strokes zero = refl
count-strokes (suc n) = ap suc (count-strokes n)

abbrev pub chrono : Chrono
chrono = record {
  timestamp_millis = λ t. t;
  from_timestamp_millis = λ m. some m;
  date_naive = λ t. t / 86400000;
  next_midnight = λ d. some ((d + 1) * 86400000);
  show_date = strokes;
  parse_date = λ s. some (count_strokes s);
}

pub chrono-IsChrono : IsChrono chrono
chrono-IsChrono = record {
  parse-show = λ d. ap some (count-strokes d);
  from-millis = λ m t h. ground arith;
  day_mono = λ t u h. omega arith;
  midnight_later = λ t m h. ground arith;
}

-- The first day, with nothing consumed.
abbrev pub fresh_state : QuotaState
fresh_state = record {
  day = "";
  daily_consumed = 0;
  cooldown_until = none;
  cooldown_unknown = false;
  provider_remaining = none;
  provider_reset_at = none;
}

abbrev pub fresh_account : Account
fresh_account = record { state = fresh_state; attempts = [] }

abbrev pub two_a_day : QuotaLimits
two_a_day = record { minute = 1; day = 2; unobserved_attempts = 1 }

abbrev pub fresh_storage : Storage
fresh_storage = record {
  ledger = record { accounts = λ g. fresh_account; clock_high_water = 0 };
  runtime = record { high_water = 0; next_generation = 0; pending = λ g. none };
  available = true;
  abuseipdb_limits = two_a_day;
  virustotal_limits = two_a_day;
}
