-- ===== src/Storage/Service/Effect.antt =====
-- What one call does to the tables: it leaves them, or saves the account that its transaction made.
use rust_enrich.Common.{
  ◌≤◌, ◌≡◌, refl, sym, ap, ◌⊎◌, inl, inr, ◌∙◌, subst, max, Bool, false, Option, none, some, List,
  [], ◌∷◌, Result, ok, err, is_some, Bool-cases, ltb, arith,
}
use native.Mathlib.Nat.{le_refl, le_trans}
use rust_enrich.Common.Clock.{Chrono, Millis}
use rust_enrich.Domain.Types.{ProviderId}
use rust_enrich.Storage.Types.{
  StorageError, ReservationError, QuotaFeedback, PendingFeedback, QuotaGroup, quota_group,
}
use rust_enrich.Storage.Quota.{QuotaDecision}
use rust_enrich.Storage.Service.{
  Account, Ledger, Storage, Turn, Fate, completes, overdue, expires, detached, fails, limits,
  observe, retain, retain_all, clear_pending, commit, bounded, save, reserve_tx, finish,
  run_reserve, reserve_gated, reserve, flatten, Reservation,
}

-- The tables and the configuration stay as they are, and the clock's mark does not fall.
pub record SameTables (s t : Storage) : Type 0 where
  pub ledger : t.ledger ≡ s.ledger
  pub abuseipdb : t.abuseipdb_limits ≡ s.abuseipdb_limits
  pub virustotal : t.virustotal_limits ≡ s.virustotal_limits
  pub later : s.runtime.high_water ≤ t.runtime.high_water

-- The tables become l, and the mark is m or later.
pub record Saves (l : Ledger) (m : Millis) (s t : Storage) : Type 0 where
  pub ledger : t.ledger ≡ l
  pub abuseipdb : t.abuseipdb_limits ≡ s.abuseipdb_limits
  pub virustotal : t.virustotal_limits ≡ s.virustotal_limits
  pub later : m ≤ t.runtime.high_water

pub SameTables-refl : (s : Storage) → SameTables s s
SameTables-refl s = record { ledger = refl; abuseipdb = refl; virustotal = refl; later = le_refl _ }

pub SameTables-trans : {s t u : Storage} → SameTables s t → SameTables t u → SameTables s u
SameTables-trans h k = record {
  ledger = k.ledger ∙ h.ledger;
  abuseipdb = k.abuseipdb ∙ h.abuseipdb;
  virustotal = k.virustotal ∙ h.virustotal;
  later = le_trans h.later k.later;
}

flag-SameTables :
    {s t : Storage} (b : Bool) → SameTables s t → SameTables s (record t { available = b })
flag-SameTables b h = record {
  ledger = h.ledger;
  abuseipdb = h.abuseipdb;
  virustotal = h.virustotal;
  later = h.later;
}

flag-Saves :
    {l : Ledger} {m : Millis} {s t : Storage} (b : Bool)
    → Saves l m s t
    → Saves l m s (record t { available = b })
flag-Saves b h = record {
  ledger = h.ledger;
  abuseipdb = h.abuseipdb;
  virustotal = h.virustotal;
  later = h.later;
}

Saves-now : (l : Ledger) (s : Storage) → Saves l s.runtime.high_water s (record s { ledger = l })
Saves-now l s = record { ledger = refl; abuseipdb = refl; virustotal = refl; later = le_refl _ }

Saves-trans :
    {l : Ledger} {m : Millis} {s t u : Storage} → Saves l m s t → SameTables t u → Saves l m s u
Saves-trans h k = record {
  ledger = k.ledger ∙ h.ledger;
  abuseipdb = k.abuseipdb ∙ h.abuseipdb;
  virustotal = k.virustotal ∙ h.virustotal;
  later = le_trans h.later k.later;
}

Saves-from :
    {l : Ledger} {m : Millis} {s t u : Storage} → SameTables s t → Saves l m t u → Saves l m s u
Saves-from h k = record {
  ledger = k.ledger;
  abuseipdb = k.abuseipdb ∙ h.abuseipdb;
  virustotal = k.virustotal ∙ h.virustotal;
  later = k.later;
}

pub observe-SameTables : (wall : Millis) (s : Storage) → SameTables s (observe wall s)
unfolding observe
observe-SameTables wall s = record {
  ledger = refl;
  abuseipdb = refl;
  virustotal = refl;
  later = omega arith;
}

pub retain-SameTables :
    (g : QuotaGroup) (f : QuotaFeedback) (s : Storage) → SameTables s (retain g f s)
unfolding retain
retain-SameTables g f s = record {
  ledger = refl;
  abuseipdb = refl;
  virustotal = refl;
  later = le_refl _;
}

pub retain_all-SameTables :
    (fs : List (QuotaGroup × QuotaFeedback)) (s : Storage) → SameTables s (retain_all fs s)
unfolding retain_all
retain_all-SameTables [] s = SameTables-refl s
retain_all-SameTables ((g, f) ∷ fs) s =
    SameTables-trans (retain-SameTables g f s) (retain_all-SameTables fs (retain g f s))

pub clear_pending-SameTables :
    (g : QuotaGroup) (o : Option PendingFeedback) (s : Storage) → SameTables s (clear_pending g o s)
unfolding clear_pending
clear_pending-SameTables g none s = SameTables-refl s
clear_pending-SameTables g (some saved) s = record {
  ledger = ground arith;
  abuseipdb = ground arith;
  virustotal = ground arith;
  later = ground arith;
}

-- Either the tables stay and nothing is granted, or they become l and what is granted has P.
abbrev pub Effect :
    {A : Type 0}
    → Ledger
    → Millis
    → (A → Type 0)
    → Storage
    → Storage × Result StorageError A
    → Type 0
Effect l m P s p =
    (SameTables s p.0 × ((a : _) → p.1 ≡ ok a → ⊥))
    ⊎ (Saves l m s p.0 × ((a : _) → p.1 ≡ ok a → P a))

-- What a reservation that is granted rests on.
abbrev pub Granted : QuotaDecision → Result ReservationError Unit → Type 0
Granted d r = r ≡ ok tt → d.blocked ≡ false

Always : Unit {0} → Type 0
Always _ = Unit {0}

module _ (l : Ledger) where
  commit-Effect :
      (fate : Fate) (s : Storage) → Effect l s.runtime.high_water Always s (commit fate l s)
  unfolding commit Always
  commit-Effect completes s = inr (Saves-now l s, λ _ _. tt)
  commit-Effect overdue s = inr (Saves-now l s, λ _ _. tt)
  commit-Effect expires s = inl (SameTables-refl s, λ a e. cc)
  commit-Effect detached s = inr (Saves-now l s, λ _ _. tt)
  commit-Effect (fails x) s = inl (SameTables-refl s, λ a e. cc)

  finish-Effect :
      (m : Millis) (g : QuotaGroup) (o : Option PendingFeedback) (d : QuotaDecision) (s : Storage)
      (p : Storage × Result StorageError Unit)
      → Effect l m Always s p
      → Effect l m (Granted d) s (finish g o d p)
  unfolding finish
  finish-Effect m g o d s (t, err e) (inl (h, _)) = inl (h, λ a e. cc)
  finish-Effect m g o d s (t, err e) (inr (h, _)) = inr (h, λ a e. cc)
  finish-Effect m g o d s (t, ok a) (inl (h, no_answer)) = absurd (no_answer a refl)
  finish-Effect m g o d s (t, ok a) (inr (h, _)) =
      let cleared = Saves-trans h (clear_pending-SameTables g o t) in
      elim (Bool-cases (is_some ((clear_pending g o t).runtime.pending g))) [
        | inl held ↦ rw held (inr (cleared, λ a e. cc))
        | inr free ↦ rw free (inr (cleared, λ a e. ground arith))
      ]

  bounded-Effect :
      {A : Type 0} (m : Millis) (P : A → Type 0) (fate : Fate) (s r : Storage)
      (p : Storage × Result StorageError A)
      → SameTables s r
      → Effect l m P s p
      → Effect l m P s (bounded fate r p)
  unfolding bounded
  bounded-Effect m P expires s r p b h = inl (flag-SameTables false b, λ a e. cc)
  bounded-Effect m P overdue s r p b (inl (h, k)) = inl (flag-SameTables false h, λ a e. cc)
  bounded-Effect m P overdue s r p b (inr (h, k)) = inr (flag-Saves false h, λ a e. cc)
  bounded-Effect m P _ s r p b (inl (h, k)) = inl (flag-SameTables _ h, k)
  bounded-Effect m P _ s r p b (inr (h, k)) = inr (flag-Saves _ h, k)

  from-Effect :
      {A : Type 0} {m : Millis} {P : A → Type 0} {s t : Storage}
      {p : Storage × Result StorageError A}
      → SameTables s t
      → Effect l m P t p
      → Effect l m P s p
  from-Effect b (inl (h, k)) = inl (SameTables-trans b h, k)
  from-Effect b (inr (h, k)) = inr (Saves-from b h, k)

  lower-Effect :
      {A : Type 0} {m n : Millis} {P : A → Type 0} {s : Storage}
      {p : Storage × Result StorageError A}
      → m ≤ n
      → Effect l n P s p
      → Effect l m P s p
  lower-Effect b (inl h) = inl h
  lower-Effect b (inr (h, k)) = inr (
    record {
      ledger = h.ledger;
      abuseipdb = h.abuseipdb;
      virustotal = h.virustotal;
      later = le_trans b h.later;
    },
    k,
  )

abbrev Denies : Result ReservationError Unit → Type 0
Denies r = r ≡ ok tt → ⊥

bounded-Denies :
    (fate : Fate) (s r : Storage) (p : Storage × Reservation)
    → SameTables s r
    → SameTables s p.0 × ((a : Result ReservationError Unit) → p.1 ≡ ok a → Denies a)
    → SameTables s (bounded fate r p).0
      × ((a : Result ReservationError Unit) → (bounded fate r p).1 ≡ ok a → Denies a)
unfolding bounded
bounded-Denies expires s r p b h = (flag-SameTables false b, λ a e _. cc)
bounded-Denies overdue s r p b h = (flag-SameTables false h.0, λ a e _. cc)
bounded-Denies _ s r p b h = (flag-SameTables _ h.0, h.1)

-- What `reserve` can do to the tables. `now` is the wall time, which is not behind the clock's mark.
pub data Reserves (c : Chrono) (p : ProviderId) (turn : Turn) (s : Storage)
    (q : Storage × Result ReservationError Unit) : Type 0 where
  denied : SameTables s q.0 → (q.1 ≡ ok tt → ⊥) → Reserves c p turn s q
  accounted :
      (d : QuotaDecision) (a : Account) (now : Millis)
      → now ≡ c.timestamp_millis turn.wall
      → s.runtime.high_water ≤ now
      → reserve_tx c
          (limits s p)
          turn.wall
          now
          (s.runtime.pending (quota_group p))
          (s.ledger.accounts (quota_group p))
        ≡ ok (d, a)
      → Saves (save (quota_group p) a now s.ledger) now s q.0
      → (q.1 ≡ ok tt → d.blocked ≡ false)
      → Reserves c p turn s q

module _ (c : Chrono) (p : ProviderId) (turn : Turn) (s : Storage) where
  flatten-ok : (r : Reservation) → flatten r ≡ ok tt → r ≡ ok (ok tt)
  flatten-ok (ok r) e = rw e
  flatten-ok (err x) e = cc

  wall : Millis
  wall = c.timestamp_millis turn.wall

  seen : Storage
  unfolding wall
  seen = observe wall s

  to_reserves :
      (now : Millis) (d : QuotaDecision) (a : Account)
      → now ≡ wall
      → s.runtime.high_water ≤ now
      → reserve_tx c
          (limits s p)
          turn.wall
          now
          (s.runtime.pending (quota_group p))
          (s.ledger.accounts (quota_group p))
        ≡ ok (d, a)
      → (l : Ledger) → l ≡ save (quota_group p) a now s.ledger
      → (q : Storage × Reservation) → Effect l now (Granted d) s q
      → Reserves c p turn s (q.0, flatten q.1)
  unfolding wall
  to_reserves now d a e h tx l same q (inl (kept, silent)) =
      denied kept (λ granted. silent (ok tt) (flatten-ok q.1 granted))
  to_reserves now d a e h tx l same q (inr (saved, granted)) =
      accounted d a now e h tx
        (record {
          ledger = saved.ledger ∙ same;
          abuseipdb = saved.abuseipdb;
          virustotal = saved.virustotal;
          later = saved.later;
        })
        (λ fine. granted (ok tt) (flatten-ok q.1 fine) refl)

  run-Reserves :
      (now : Millis)
      → now ≡ wall
      → s.runtime.high_water ≤ now
      → seen.runtime.high_water ≡ now
      → (tx : Result StorageError (QuotaDecision × Account))
      → tx
        ≡ reserve_tx c
            (limits s p)
            turn.wall
            now
            (s.runtime.pending (quota_group p))
            (s.ledger.accounts (quota_group p))
      → let (t, r) = bounded turn.fate s (
          run_reserve
            (quota_group p)
            (s.runtime.pending (quota_group p))
            turn
            now
            (retain_all turn.arrived seen)
            tx) in
        Reserves c p turn s (t, flatten r)
  unfolding run_reserve seen wall
  run-Reserves now e h m (err x) same =
      let base =
        SameTables-trans (observe-SameTables wall s) (retain_all-SameTables turn.arrived seen) in
      let (kept, silent) =
        bounded-Denies turn.fate s s _ (SameTables-refl s) (base, λ a e' _. cc e') in
      denied kept (λ granted. silent (ok tt) (flatten-ok _ granted) refl)
  run-Reserves now e h m (ok (d, a)) same =
      let before = retain_all turn.arrived seen in
      let base =
        SameTables-trans (observe-SameTables wall s) (retain_all-SameTables turn.arrived seen) in
      let l = save (quota_group p) a now before.ledger in
      let reached : now ≤ before.runtime.high_water =
        subst (λ k. k ≤ before.runtime.high_water) m
          (retain_all-SameTables turn.arrived seen).later in
      to_reserves now d a e h (sym same) l (ap (λ k. save (quota_group p) a now k) base.ledger) _ (
        bounded-Effect l now (Granted d) turn.fate s s _ (SameTables-refl s) (
          from-Effect l base (
            finish-Effect l now (quota_group p) (s.runtime.pending (quota_group p)) d before _
              (lower-Effect l reached (commit-Effect l turn.fate before)))))

  -- Every call of `reserve` leaves the tables alone or saves the account of its transaction.
  pub reserve-Reserves : Reserves c p turn s (reserve c p turn s)
  unfolding reserve reserve_gated seen wall observe
  reserve-Reserves = elim (Bool-cases (ltb wall (max s.runtime.high_water wall))) [
    | inl behind ↦ rw behind (
        let (kept, silent) =
          bounded-Denies turn.fate s s (seen, _) (SameTables-refl s)
            (observe-SameTables wall s, λ a e' granted. cc e') in
        denied kept (λ granted. silent (ok tt) (flatten-ok _ granted) refl))
    | inr fresh ↦
        rw fresh
          (run-Reserves (max s.runtime.high_water wall) (ground arith) (omega arith) refl _ refl)
  ]
