-- ===== src/Storage/Types.antt =====
-- The data of src/storage.rs: errors, provider feedback and quota limits.
use rust_enrich.Common.{ℕ, Bool, true, false, Option}
use rust_enrich.Common.Clock.{DateTime}
use rust_enrich.Domain.Types.{ProviderId}

pub data StorageError : Type 0 where
  unavailable timeout already_owned newer_schema invalid_data : StorageError

pub data ReservationError : Type 0 where
  storage : StorageError → ReservationError
  limited : Option ℕ → ReservationError

pub record QuotaFeedback : Type 0 where
  pub cooldown_until : Option DateTime
  pub unknown_reset : Bool
  pub remaining : Option ℕ
  pub reset_at : Option DateTime

pub record PendingFeedback : Type 0 where
  pub generation : ℕ
  pub feedback : QuotaFeedback

pub record QuotaLimits : Type 0 where
  pub minute : ℕ
  pub day : ℕ
  pub unobserved_attempts : ℕ

-- The two strings that `quota_group` returns.
pub data QuotaGroup : Type 0 where
  abuseipdb_check virustotal : QuotaGroup

unfoldable pub quota_group : ProviderId → QuotaGroup
quota_group ProviderId.abuseipdb = QuotaGroup.abuseipdb_check
quota_group ProviderId.virustotal = QuotaGroup.virustotal

abbrev pub same_group : QuotaGroup → QuotaGroup → Bool
same_group QuotaGroup.abuseipdb_check QuotaGroup.abuseipdb_check = true
same_group QuotaGroup.virustotal QuotaGroup.virustotal = true
same_group _ _ = false
