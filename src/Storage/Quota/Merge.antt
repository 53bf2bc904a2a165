-- ===== src/Storage/Quota/Merge.antt =====
-- `merge_feedback` in src/storage.rs: observations that wait for the database are joined.
use rust_enrich.Common.{
  ℕ, ◌≡◌, min, max, ◌||◌, Bool, false, Option, none, some, arith, ltb, ◌==◌, if◌then◌else◌,
}
use rust_enrich.Common.Clock.{DateTime}
use rust_enrich.Storage.Types.{QuotaFeedback}

-- the cooldown and whether its reset is unknown
merge_cooldown : Option DateTime → Bool → Option DateTime → Bool → Option DateTime × Bool
merge_cooldown (some a) old_unknown (some b) new_unknown =
    if ltb b a
    then (some a, old_unknown)
    else if a == b
    then (some a, old_unknown || new_unknown)
    else (some b, new_unknown)
merge_cooldown none old_unknown (some b) new_unknown = (some b, new_unknown)
merge_cooldown (some a) old_unknown none new_unknown = (some a, old_unknown)
merge_cooldown none old_unknown none new_unknown = (none, false)

merge_remaining : Option ℕ → Option ℕ → Option ℕ
merge_remaining (some a) (some b) = some (min a b)
merge_remaining (some a) none = some a
merge_remaining none b = b

-- `Option::max`: none is below every value
max_option : Option DateTime → Option DateTime → Option DateTime
max_option (some a) (some b) = some (max a b)
max_option (some a) none = some a
max_option none b = b

unfoldable pub merge_feedback : QuotaFeedback → QuotaFeedback → QuotaFeedback
unfolding merge_cooldown merge_remaining max_option
merge_feedback old new =
    let (cooldown_until, unknown_reset) =
      merge_cooldown old.cooldown_until old.unknown_reset new.cooldown_until new.unknown_reset in
    record {
      cooldown_until = cooldown_until;
      unknown_reset = unknown_reset;
      remaining = merge_remaining old.remaining new.remaining;
      reset_at = max_option old.reset_at new.reset_at;
    }

merge_cooldown_comm :
    (a : Option DateTime) (x : Bool) (b : Option DateTime) (y : Bool)
    → merge_cooldown a x b y ≡ merge_cooldown b y a x
unfolding merge_cooldown
merge_cooldown_comm a x b y = ground arith

-- The order in which two observations arrive does not matter.
pub merge_feedback_comm : (f g : QuotaFeedback) → merge_feedback f g ≡ merge_feedback g f
unfolding merge_feedback
merge_feedback_comm f g = ground arith

-- Nor does the grouping.
pub merge_feedback_assoc :
    (f g h : QuotaFeedback)
    → merge_feedback (merge_feedback f g) h ≡ merge_feedback f (merge_feedback g h)
unfolding merge_feedback
merge_feedback_assoc f g h = ground arith
