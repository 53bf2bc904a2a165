-- ===== src/Storage/Service/Daily.antt =====
-- The daily cap of a provider, over every history.
use rust_enrich.Common.{
  ℕ, ◌+◌, ◌≤◌, ◌<◌, ◌≡◌, refl, sym, ◌∙◌, ap, subst, true, false, some, List, [], ◌∷◌, arith, ltb,
  ◌==◌, if◌then◌else◌, inl, inr, Bool-cases, some-inj,
}
use rust_enrich.Common.Clock.{Chrono, DateTime, NaiveDate, Millis}
use rust_enrich.Domain.Types.{ProviderId, abuseipdb, virustotal}
use rust_enrich.Storage.Types.{QuotaGroup, quota_group}
use rust_enrich.Storage.Quota.{QuotaDecision}
use rust_enrich.Storage.Quota.Window.{carried}
use rust_enrich.Storage.Service.{Account, Storage, limits, set_group}
use rust_enrich.Storage.Service.Transaction.{Outcome}
use rust_enrich.Storage.Service.Run.{same_provider, KeepsCounts}

-- The grants of a day.
abbrev pub grants_on : Chrono → NaiveDate → List DateTime → ℕ
grants_on c d [] = 0
grants_on c d (t ∷ ts) = (if c.date_naive t == d then 1 else 0) + grants_on c d ts

pub limits-same :
    (p : ProviderId) (s t : Storage)
    → t.abuseipdb_limits ≡ s.abuseipdb_limits
    → t.virustotal_limits ≡ s.virustotal_limits
    → limits t p ≡ limits s p
unfolding limits
limits-same abuseipdb s t h k = h
limits-same virustotal s t h k = k

module _ (c : Chrono) (p : ProviderId) where
  abbrev pub account : Storage → Account
  account s = s.ledger.accounts (quota_group p)

  -- The row's day is the last one of a grant, and its count is at least that day's grants.
  pub record DailyInv (s : Storage) (log : List DateTime) : Type 0 where
    pub saved : NaiveDate
    pub parsed : c.parse_date (account s).state.day ≡ some saved
    pub counted : grants_on c saved log ≤ (account s).state.daily_consumed
    pub none_later : (d : NaiveDate) → saved < d → grants_on c d log ≡ 0
    pub capped : (d : NaiveDate) → grants_on c d log ≤ (limits s p).day

  pub keeps-DailyInv :
      {s t : Storage} (log : List DateTime) → KeepsCounts s t → DailyInv s log → DailyInv t log
  keeps-DailyInv {s} {t} log k v = record {
    saved = v.saved;
    parsed = ap c.parse_date (k.day (quota_group p)).0 ∙ v.parsed;
    counted = rw (k.day (quota_group p)).1 v.counted;
    none_later = v.none_later;
    capped = λ d. rw (limits-same p s t k.abuseipdb k.virustotal) (v.capped d);
  }

  -- today's grants so far are within the count that today starts from
  grants-le-carried :
      (s : Storage) (log : List DateTime) (v : DailyInv s log) (saved today : NaiveDate)
      → c.parse_date (account s).state.day ≡ some saved
      → saved ≤ today
      → grants_on c today log ≤ carried saved today (account s).state.daily_consumed
  grants-le-carried s log v saved today parsed le =
      let same : v.saved ≡ saved = some-inj (sym v.parsed ∙ parsed) in
      elim (Bool-cases (ltb saved today)) [
        | inl later ↦ rw later (ground (arith, v.none_later today))
        | inr same_day ↦
            let here : v.saved ≡ today = ground arith in
            rw same_day
              (subst (λ d. grants_on c d log ≤ (account s).state.daily_consumed) here v.counted)
      ]

  module _ (s t : Storage) (log : List DateTime) (wall : DateTime) (now : Millis)
      (d : QuotaDecision) (v : DailyInv s log)
      (o : Outcome c (limits s p) wall now (account s) d (account t))
      (same : limits t p ≡ limits s p) where
    start_count : ℕ
    start_count = carried o.0 (c.date_naive wall) (account s).state.daily_consumed

    start-bound : grants_on c (c.date_naive wall) log ≤ start_count
    unfolding start_count
    start-bound = grants-le-carried s log v o.0 (c.date_naive wall) o.1 o.2

    later-none : (e : NaiveDate) → c.date_naive wall < e → grants_on c e log ≡ 0
    later-none e h =
        let saved_same : v.saved ≡ o.0 = some-inj (sym v.parsed ∙ o.1) in
        let le : o.0 ≤ c.date_naive wall = o.2 in v.none_later e (omega arith)

    pub granted-DailyInv : d.blocked ≡ false → DailyInv t (wall ∷ log)
    unfolding start_count
    granted-DailyInv free =
        let (count, below, _) = (o.4).free free in
        let today = c.date_naive wall in
        record {
          saved = today;
          parsed = o.3;
          counted = ground (arith, start-bound);
          none_later = λ e h. ground (arith, later-none e h);
          capped = λ e. rw same (ground (arith, start-bound, v.capped e, below));
        }

    pub denied-DailyInv : DailyInv t log
    unfolding start_count
    denied-DailyInv = record {
      saved = c.date_naive wall;
      parsed = o.3;
      counted = elim (Bool-cases d.blocked) [
        | inl held ↦ rw ((o.4).held held).0 start-bound
        | inr free ↦ rw ((o.4).free free).0 (omega (arith, start-bound))
      ];
      none_later = later-none;
      capped = λ e. rw same (v.capped e);
    }

-- Another provider's account is not touched.
pub other_account :
    (p q : ProviderId) (a : Account) (f : QuotaGroup → Account)
    → same_provider p q ≡ false
    → set_group (quota_group q) a f (quota_group p) ≡ f (quota_group p)
unfolding quota_group
other_account abuseipdb abuseipdb a f h = cc
other_account abuseipdb virustotal a f h = refl
other_account virustotal abuseipdb a f h = refl
other_account virustotal virustotal a f h = cc

pub own_account :
    (p : ProviderId) (a : Account) (f : QuotaGroup → Account)
    → set_group (quota_group p) a f (quota_group p) ≡ a
unfolding quota_group
own_account abuseipdb a f = refl
own_account virustotal a f = refl

pub same_provider-eq : (p q : ProviderId) → same_provider p q ≡ true → p ≡ q
same_provider-eq abuseipdb abuseipdb h = refl
same_provider-eq abuseipdb virustotal h = cc
same_provider-eq virustotal abuseipdb h = cc
same_provider-eq virustotal virustotal h = refl
