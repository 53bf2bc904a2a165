-- ===== src/Enrichment/Fetch/Loop.antt =====
-- The loop of `fetch` in src/enrichment.rs.
use rust_enrich.Common.{
  ℕ, zero, suc, ◌≤◌, Bool, true, false, ◌&&◌, Option, none, some, Result, ok, err, leb,
  if◌then◌else◌, arith,
}
use rust_enrich.Domain.Errors.{ErrorCode}
use rust_enrich.Domain.Indicator.{ValidatedIndicator}
use rust_enrich.Storage.Types.{ReservationError, storage, limited}
use rust_enrich.Config.{Duration}
use rust_enrich.Providers.Adapter.{Adapter}
use rust_enrich.Enrichment.Send.{Tools, Attempt}
use rust_enrich.Enrichment.Fetch.{
  delay, Instant, Round, Step, Fetched, sending, reserved, attempt, retries, decide, end, add_up,
  fetch_rounds, fetch,
}

module _ {Value S : Type 0} (t : Tools Value S) (limit : Duration) where
  -- A reservation that is not granted is followed by no request, and one that is by at most one.
  IsPaid : Step Value S → Type 0
  IsPaid step = (step.sends ≤ step.grants) × (step.grants ≤ 1)

  sending-IsPaid :
      (a : Adapter) (i : ValidatedIndicator) (until : Instant) (r : Round S) (at : Option Instant)
      (s : S)
      → IsPaid (sending t limit a i until r at s)
  unfolding sending IsPaid
  sending-IsPaid a i until r none s = (omega arith, omega arith)
  sending-IsPaid a i until r (some at) s = (omega arith, omega arith)

  if-IsPaid : (b : Bool) (x y : Step Value S) → IsPaid x → IsPaid y → IsPaid (if b then x else y)
  if-IsPaid true x y h k = h
  if-IsPaid false x y h k = k

  reserved-IsPaid :
      (a : Adapter) (i : ValidatedIndicator) (deadline : Instant) (r : Round S)
      (answer : S × Result ReservationError Unit)
      → IsPaid (reserved t limit a i deadline r answer)
  unfolding reserved IsPaid
  reserved-IsPaid a i deadline r (s, err (limited delay)) = (omega arith, omega arith)
  reserved-IsPaid a i deadline r (s, err (storage e)) = (omega arith, omega arith)
  reserved-IsPaid a i deadline r (s, ok u) =
      if-IsPaid (leb deadline r.reserved_at) _ _ (omega arith, omega arith)
        (sending-IsPaid a i _ r r.answered_at s)

  attempt-IsPaid :
      (a : Adapter) (i : ValidatedIndicator) (deadline : Instant) (r : Round S) (s : S)
      → IsPaid (attempt t limit a i deadline r s)
  unfolding attempt IsPaid
  attempt-IsPaid a i deadline r s =
      if-IsPaid (r.provider_open && r.global_open) _ _
        (reserved-IsPaid a i deadline r (t.store.reserve a.id s)) (omega arith, omega arith)

  pub attempt-sends :
      (a : Adapter) (i : ValidatedIndicator) (deadline : Instant) (r : Round S) (s : S)
      → (attempt t limit a i deadline r s).sends ≤ 1
  unfolding IsPaid
  attempt-sends a i deadline r s = omega (arith, attempt-IsPaid a i deadline r s)

  decide-bounds :
      (number left : ℕ) (deadline : Instant) (r : Round S) (step : Step Value S)
      (result : Result {0} ErrorCode (Attempt Value)) (later : Fetched Value S)
      → IsPaid step
      → (later.sends ≤ later.grants) × (later.grants ≤ left)
      → ((decide t limit number deadline r step result later).sends
          ≤ (decide t limit number deadline r step result later).grants)
        × ((decide t limit number deadline r step result later).grants ≤ suc left)
  unfolding decide IsPaid
  decide-bounds number left deadline r step (err code) later (p, q) h = (omega arith, omega arith)
  decide-bounds number left deadline r step (ok result) later (p, q) (h, k) =
      if-bounds (retries t limit number deadline r.decided_at result)
        (add_up t limit step (delay t limit result.retry_after) later)
        (end t limit step result.outcome) (omega arith) (omega arith) (omega arith) (omega arith)
    where
      if-bounds :
          (b : Bool) (x y : Fetched Value S)
          → x.sends ≤ x.grants
          → y.sends ≤ y.grants
          → x.grants ≤ suc left
          → y.grants ≤ suc left
          → ((if b then x else y).sends ≤ (if b then x else y).grants)
            × ((if b then x else y).grants ≤ suc left)
      if-bounds true x y h k h' k' = (h, h')
      if-bounds false x y h k h' k' = (k, k')

  fetch_rounds-bounds :
      (a : Adapter) (i : ValidatedIndicator) (deadline : Instant) (rounds : ℕ → Round S)
      (left number : ℕ) (s : S)
      → ((fetch_rounds t limit a i deadline rounds left number s).sends
          ≤ (fetch_rounds t limit a i deadline rounds left number s).grants)
        × ((fetch_rounds t limit a i deadline rounds left number s).grants ≤ left)
  unfolding fetch_rounds
  fetch_rounds-bounds a i deadline rounds zero number s = (omega arith, omega arith)
  fetch_rounds-bounds a i deadline rounds (suc left) number s =
      let step = attempt t limit a i deadline (rounds number) s in
      decide-bounds number left deadline (rounds number) step step.result
        (fetch_rounds t limit a i deadline rounds left (suc number) step.store)
        (attempt-IsPaid a i deadline (rounds number) s)
        (fetch_rounds-bounds a i deadline rounds left (suc number) step.store)

  -- A lookup sends no more requests than the storage granted it reservations, and is granted at most two.
  pub fetch-bounds :
      (a : Adapter) (i : ValidatedIndicator) (deadline : Instant) (rounds : ℕ → Round S) (s : S)
      → ((fetch t limit a i deadline rounds s).sends ≤ (fetch t limit a i deadline rounds s).grants)
        × ((fetch t limit a i deadline rounds s).grants ≤ 2)
  unfolding fetch
  fetch-bounds a i deadline rounds s = fetch_rounds-bounds a i deadline rounds 2 0 s
