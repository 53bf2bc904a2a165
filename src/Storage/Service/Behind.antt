-- ===== src/Storage/Service/Behind.antt =====
-- What `reserve` answers while the wall clock runs behind the clock's mark.
use rust_enrich.Common.{
  ◌<◌, ◌≡◌, refl, max, ap, ◌∙◌, true, some, ok, err, ltb, arith, ℕ, ◌+◌, ◌-◌, ◌*◌, ◌^◌, ◌≤◌,
}
use rust_enrich.Common.Clock.{Chrono}
use rust_enrich.Domain.Types.{ProviderId}
use rust_enrich.Storage.Types.{limited}
use rust_enrich.Storage.Quota.{delay_seconds}
use rust_enrich.Storage.Service.{
  Storage, Turn, Fate, completes, overdue, expires, detached, fails, observe, bounded,
  reserve_gated, reserve, flatten, Reservation,
}

bounded_completes :
    (fate : Fate) (b : Storage) (p : Storage × Reservation)
    → fate ≡ completes
    → ((bounded fate b p).1 ≡ p.1) × ((bounded fate b p).0.ledger ≡ p.0.ledger)
unfolding bounded
bounded_completes completes b p e = (refl, refl)
bounded_completes overdue b p e = cc
bounded_completes expires b p e = cc
bounded_completes detached b p e = cc
bounded_completes (fails x) b p e = cc

delay_seconds-least :
    (until now : ℕ)
    → now < until
    → until - now < 2 ^ 63
    → (until ≤ now + 1000 * delay_seconds until now)
      × (now + 1000 * delay_seconds until now < until + 1000)
unfolding delay_seconds
delay_seconds-least until now h fits = (omega arith, omega arith)

module _ (c : Chrono) (p : ProviderId) (turn : Turn) (s : Storage) where
  behind-denied :
      c.timestamp_millis turn.wall < s.runtime.high_water
      → reserve_gated c p turn s ≡ (
        observe (c.timestamp_millis turn.wall) s,
        ok (
            err
              (limited (some (delay_seconds s.runtime.high_water (c.timestamp_millis turn.wall))))),
      )
  unfolding reserve_gated observe
  behind-denied h =
      let marked : max s.runtime.high_water (c.timestamp_millis turn.wall) ≡ s.runtime.high_water =
        omega arith in
      let behind : ltb (c.timestamp_millis turn.wall) s.runtime.high_water ≡ true = ground arith in
      rw (marked, behind)

  -- While the wall clock is behind the clock's mark, by less than 2^63 milliseconds, a call that is not
  -- cut off is denied with a number of seconds that reaches to the mark and is the least that does, and
  -- the tables stay as they are.
  pub reserve_behind :
      c.timestamp_millis turn.wall < s.runtime.high_water
      → s.runtime.high_water - c.timestamp_millis turn.wall < 2 ^ 63
      → turn.fate ≡ completes
      → (n : ℕ) × ((reserve c p turn s).1 ≡ err (limited (some n)))
        × (s.runtime.high_water ≤ c.timestamp_millis turn.wall + 1000 * n)
        × (c.timestamp_millis turn.wall + 1000 * n < s.runtime.high_water + 1000)
        × ((reserve c p turn s).0.ledger ≡ s.ledger)
  unfolding reserve observe
  reserve_behind h fits e =
      let (same, kept) = bounded_completes turn.fate s (reserve_gated c p turn s) e in
      let (reached, least) = delay_seconds-least s.runtime.high_water _ h fits in
      (
        delay_seconds s.runtime.high_water (c.timestamp_millis turn.wall),
        ap flatten same ∙ ap (λ (q : Storage × Reservation). flatten q.1) (behind-denied h),
        reached,
        least,
        kept ∙ ap (λ (q : Storage × Reservation). q.0.ledger) (behind-denied h),
      )
