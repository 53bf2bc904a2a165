-- ===== src/Storage/Service/Minute.antt =====
-- The rolling cap of a provider, over every history: the attempts of any sixty seconds.
use rust_enrich.Common.{
  ℕ, ◌+◌, ◌-◌, ◌≤◌, ◌<◌, ◌≡◌, refl, sym, ◌∙◌, ap, subst, max, true, false, ◌&&◌, List, [], ◌∷◌,
  Result, ok, err, arith, ltb, leb, keep, length, inl, inr, Bool-cases,
}
use native.Mathlib.Nat.{le_trans}
use rust_enrich.Common.Clock.{Chrono, IsChrono, DateTime, Millis}
use rust_enrich.Domain.Types.{ProviderId}
use rust_enrich.Storage.Types.{quota_group, ReservationError}
use rust_enrich.Storage.Quota.{QuotaDecision, count_after}
use rust_enrich.Storage.Service.{Ledger, Storage, Turn, limits}
use rust_enrich.Storage.Service.Effect.{Reserves, denied, accounted}
use rust_enrich.Storage.Service.Transaction.{Taken, Outcome, reserve_tx-Taken}
use rust_enrich.Storage.Service.Run.{
  granted_at, push, same_provider, KeepsCounts, SameTables-KeepsCounts,
}
use rust_enrich.Storage.Service.Daily.{account, limits-same, other_account, own_account}

abbrev pub times : Chrono → List DateTime → List Millis
times c [] = []
times c (t ∷ ts) = c.timestamp_millis t ∷ times c ts

le-max_left : (a b : ℕ) → a ≤ max a b
le-max_left a b = omega arith

max-le : {a b n : ℕ} → a ≤ n → b ≤ n → max a b ≤ n
max-le h k = omega arith

-- The times behind `from`, up to a minute.
abbrev pub in_minute : Millis → List Millis → ℕ
in_minute from ts = length (keep (λ t. ltb from t && leb t (from + 60000)) ts)

in_minute-le-count_after :
    (from : Millis) (ts : List Millis) → in_minute from ts ≤ count_after from ts
unfolding count_after
in_minute-le-count_after from [] = omega arith
in_minute-le-count_after from (t ∷ ts) = ground (arith, in_minute-le-count_after from ts)

count_after-antitone :
    (m n : Millis) (ts : List Millis) → m ≤ n → count_after n ts ≤ count_after m ts
unfolding count_after
count_after-antitone m n [] h = omega arith
count_after-antitone m n (t ∷ ts) h = ground (arith, count_after-antitone m n ts h)

count_after-keep :
    (m n : Millis) (ts : List Millis) → m ≤ n → count_after n (keep (ltb m) ts) ≡ count_after n ts
unfolding count_after
count_after-keep m n [] h = refl
count_after-keep m n (t ∷ ts) h = ground (arith, count_after-keep m n ts h)

module _ (c : Chrono) (p : ProviderId) where
  -- Every grant is recorded in the table as long as a window can still reach it.
  pub record MinuteInv (s : Storage) (log : List DateTime) : Type 0 where
    pub marked : s.ledger.clock_high_water ≤ s.runtime.high_water
    pub past : (m : Millis) → s.ledger.clock_high_water ≤ m → count_after m (times c log) ≡ 0
    pub covered :
        (m : Millis)
        → s.ledger.clock_high_water ≤ m + 60000
        → count_after m (times c log) ≤ count_after m (account c p s).attempts
    pub capped : (m : Millis) → in_minute m (times c log) ≤ (limits s p).minute

  pub keeps-MinuteInv :
      {s t : Storage} (log : List DateTime) → KeepsCounts s t → MinuteInv s log → MinuteInv t log
  keeps-MinuteInv {s} {t} log k v = record {
    marked = k.marked v.marked;
    past = λ m h. v.past m (le_trans k.mark_mono h);
    covered = λ m h. rw (k.attempts (quota_group p)) (v.covered m (le_trans k.mark_mono h));
    capped = λ m. rw (limits-same p s t k.abuseipdb k.virustotal) (v.capped m);
  }

  -- what an answered reservation leaves, in an account that is written at `now`
  module _ (s t : Storage) (log : List DateTime) (wall : DateTime) (now : Millis)
      (d : QuotaDecision) (consumed : ℕ) (v : MinuteInv s log) (on : 0 < (limits s p).minute)
      (e : now ≡ c.timestamp_millis wall) (le : s.runtime.high_water ≤ now)
      (taken : Taken
        (limits s p)
        now
        (keep (ltb (now - 60000)) (account c p s).attempts)
        consumed
        d
        (account c p t))
      (mark : t.ledger.clock_high_water ≡ max s.ledger.clock_high_water now)
      (reached : now ≤ t.runtime.high_water) (same : limits t p ≡ limits s p) where
    recent : List Millis
    recent = keep (ltb (now - 60000)) (account c p s).attempts

    mark_now : t.ledger.clock_high_water ≡ now
    mark_now = let m = v.marked in omega arith

    recent-covered :
        (m : Millis) → now ≤ m + 60000 → count_after m (times c log) ≤ count_after m recent
    unfolding recent
    recent-covered m h =
        let back : now - 60000 ≤ m = omega arith in
        rw (count_after-keep (now - 60000) m (account c p s).attempts back)
          (v.covered m (le_trans v.marked (le_trans le h)))

    denied-covered :
        (m : Millis)
        → now ≤ m + 60000
        → count_after m (times c log) ≤ count_after m (account c p t).attempts
    unfolding count_after recent
    denied-covered m h = elim (Bool-cases d.blocked) [
      | inl held ↦ rw (taken.held held).1 (recent-covered m h)
      | inr free ↦ rw (((taken.free free).2 on).0) (ground (arith, recent-covered m h))
    ]

    past_now : (m : Millis) → now ≤ m → count_after m (times c log) ≡ 0
    past_now m h = v.past m (le_trans v.marked (le_trans le h))

    denied-MinuteInv : MinuteInv t log
    denied-MinuteInv = record {
      marked = rw mark_now reached;
      past = λ m h. past_now m (rw mark_now at h);
      covered = λ m h. denied-covered m (rw mark_now at h);
      capped = λ m. rw same (v.capped m);
    }

    -- a window that holds the new grant reaches back less than a minute
    granted-capped :
        d.blocked ≡ false → (m : Millis) → in_minute m (now ∷ times c log) ≤ (limits s p).minute
    unfolding recent
    granted-capped free m = elim (Bool-cases (ltb m now && leb now (m + 60000))) [
      | inr outside ↦ rw outside (v.capped m)
      | inl inside ↦
          let back : now - 60000 ≤ m = ground arith in
          let reach : now ≤ m + 60000 = ground arith in
          rw inside (
            omega (
              arith,
              in_minute-le-count_after m (times c log),
              recent-covered m reach,
              count_after-antitone (now - 60000) m recent back,
              ((taken.free free).2 on).1,
            ))
    ]

    granted-covered :
        d.blocked ≡ false
        → (m : Millis) → now ≤ m + 60000
        → count_after m (now ∷ times c log) ≤ count_after m (account c p t).attempts
    unfolding count_after recent
    granted-covered free m h = rw (((taken.free free).2 on).0) (ground (arith, recent-covered m h))

    granted-past : (m : Millis) → now ≤ m → count_after m (now ∷ times c log) ≡ 0
    unfolding count_after
    granted-past m h = ground (arith, past_now m h)

    granted-MinuteInv : d.blocked ≡ false → MinuteInv t (wall ∷ log)
    granted-MinuteInv free = record {
      marked = rw mark_now reached;
      past = λ m h. rw (← e) (granted-past m (rw mark_now at h));
      covered = λ m h. rw (← e) (granted-covered free m (rw mark_now at h));
      capped = λ m. rw (same, ← e) (granted-capped free m);
    }

  module _ (ic : IsChrono c) where
    answered-MinuteInv :
        (turn : Turn) (s t : Storage) (log : List DateTime) (now : Millis) (d : QuotaDecision)
        (r : Result ReservationError Unit)
        → MinuteInv s log
        → 0 < (limits s p).minute
        → now ≡ c.timestamp_millis turn.wall
        → s.runtime.high_water ≤ now
        → Outcome c (limits s p) turn.wall now (account c p s) d (account c p t)
        → t.ledger.clock_high_water ≡ max s.ledger.clock_high_water now
        → now ≤ t.runtime.high_water
        → limits t p ≡ limits s p
        → (r ≡ ok tt → d.blocked ≡ false)
        → MinuteInv t (push (granted_at true turn.wall r) log)
    answered-MinuteInv turn s t log now d (ok _) v on e le o mark reached same free =
        granted-MinuteInv s t log turn.wall now d _ v on e le o.4 mark reached same (free refl)
    answered-MinuteInv turn s t log now d (err _) v on e le o mark reached same free =
        denied-MinuteInv s t log turn.wall now d _ v on e le o.4 mark reached same

    pub mine-MinuteInv :
        (turn : Turn) (s : Storage) (log : List DateTime)
        (q : Storage × Result ReservationError Unit)
        → MinuteInv s log
        → 0 < (limits s p).minute
        → Reserves c p turn s q
        → MinuteInv q.0 (push (granted_at true turn.wall q.1) log)
    mine-MinuteInv turn s log (t, ok _) v on (denied h no_grant) = absurd (no_grant refl)
    mine-MinuteInv turn s log (t, err _) v on (denied h no_grant) =
        keeps-MinuteInv log (SameTables-KeepsCounts h) v
    mine-MinuteInv turn s log (t, r) v on (accounted d a now e le tx saved fine) =
        let here : account c p t ≡ a =
          ap (λ (l : Ledger). l.accounts (quota_group p)) saved.ledger
          ∙ own_account p a s.ledger.accounts in
        answered-MinuteInv turn s t log now d r v on e le
          (subst (Outcome c (limits s p) turn.wall now (account c p s) d) (sym here)
            (reserve_tx-Taken c ic (limits s p) turn.wall now _ (account c p s) a d tx))
          (ap (λ (l : Ledger). l.clock_high_water) saved.ledger) saved.later
          (limits-same p s t saved.abuseipdb saved.virustotal) fine

    pub others-MinuteInv :
        (p' : ProviderId) (turn : Turn) (s : Storage) (log : List DateTime)
        (q : Storage × Result ReservationError Unit)
        → same_provider p p' ≡ false
        → MinuteInv s log
        → Reserves c p' turn s q
        → MinuteInv q.0 log
    others-MinuteInv p' turn s log q other v (denied h no_grant) =
        keeps-MinuteInv log (SameTables-KeepsCounts h) v
    others-MinuteInv p' turn s log (t, r) other v (accounted d a now e le tx saved fine) =
        let same : account c p t ≡ account c p s =
          ap (λ (l : Ledger). l.accounts (quota_group p)) saved.ledger
          ∙ other_account p p' a s.ledger.accounts other in
        let mark : t.ledger.clock_high_water ≡ max s.ledger.clock_high_water now =
          ap (λ (l : Ledger). l.clock_high_water) saved.ledger in
        let grown : s.ledger.clock_high_water ≤ t.ledger.clock_high_water =
          rw mark (le-max_left _ _) in
        record {
          marked = rw mark (max-le (le_trans v.marked (le_trans le saved.later)) saved.later);
          past = λ m h. v.past m (le_trans grown h);
          covered = λ m h. rw same (v.covered m (le_trans grown h));
          capped = λ m. rw (limits-same p s t saved.abuseipdb saved.virustotal) (v.capped m);
        }
