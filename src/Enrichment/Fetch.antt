-- ===== src/Enrichment/Fetch.antt =====
-- `fetch` of src/enrichment.rs: at most two attempts, each behind the permits and a reservation. What the runtime
-- decides of an attempt is its `Round`. An `Instant` and a `Duration` are numbers of nanoseconds.
pub mod Loop
pub mod Retries
use rust_enrich.Common.{
  ℕ, zero, suc, ◌+◌, ◌-◌, ◌*◌, ◌^◌, min, max, Bool, true, false, not, ◌||◌, ◌&&◌, Option, none,
  some, Result, ok, err, ◌==◌, leb, ltb, if◌then◌else◌,
}
use rust_enrich.Domain.Errors.{
  ErrorCode, provider_busy, provider_timeout, storage_unavailable, quota_exhausted, internal_error,
}
use rust_enrich.Domain.Outcome.{Outcome}
use rust_enrich.Domain.Outcome
use rust_enrich.Domain.Indicator.{ValidatedIndicator}
use rust_enrich.Storage.Types.{ReservationError, storage, limited}
use rust_enrich.Config.{Duration}
use rust_enrich.Providers.Adapter.{Adapter}
use rust_enrich.Enrichment.Feedback.{from_secs}
use rust_enrich.Enrichment.Store.{Store}
use rust_enrich.Enrichment.Send.{Tools, Attempt, Exchange, Sent, send, with_delay}

abbrev pub Instant : Type 0
Instant = ℕ

abbrev pub from_millis : ℕ → Duration
from_millis n = n * 1000000

-- `Duration::MAX`, and `saturating_add` of two durations
abbrev pub longest : Duration
longest = from_secs (2 ^ 64 - 1) + 999999999

abbrev pub plus : Duration → Duration → Duration
plus a b = min (a + b) longest

-- One attempt: whether the two semaphores are open; the times after the reservation and before the
-- request; the exchange; when its answer is there, if its deadline does not cut it off, and else what it
-- had done of the storage; the time of the decision. The times are any; how long `fetch` sleeps in between
-- is counted by itself.
pub record Round (S : Type 0) : Type 0 where
  pub provider_open : Bool
  pub global_open : Bool
  pub reserved_at : Instant
  pub sent_at : Instant
  pub exchange : Exchange
  pub answered_at : Option Instant
  pub cut : S → S
  pub decided_at : Instant

-- The state behind an attempt, its result, and how many reservations were granted and how often `send` was called.
pub record Step (Value S : Type 0) : Type 0 where
  pub store : S
  pub grants : ℕ
  pub sends : ℕ
  pub result : Result ErrorCode (Attempt Value)

pub record Fetched (Value S : Type 0) : Type 0 where
  pub store : S
  pub grants : ℕ
  pub sends : ℕ
  pub slept : Duration
  pub outcome : Outcome Value

module _ {Value S : Type 0} (t : Tools Value S) (provider_timeout_limit : Duration) where
  abbrev limited_by : Option ℕ → Attempt Value
  limited_by delay = record {
    outcome = with_delay t delay (Outcome.failure quota_exhausted);
    retry = false;
    retry_after = none;
  }

  abbrev in_time : Bool → Result ErrorCode (Attempt Value) → Result ErrorCode (Attempt Value)
  in_time true r = r
  in_time false r = err provider_timeout

  -- `timeout_at(attempt_deadline, self.send(…))`
  unfoldable pub sending :
      Adapter → ValidatedIndicator → Instant → Round S → Option Instant → S → Step Value S
  unfolding send
  sending a i attempt_deadline r none s = record {
    store = r.cut s;
    grants = 1;
    sends = 1;
    result = err provider_timeout;
  }
  sending a i attempt_deadline r (some at) s =
      let sent = send t a i r.exchange s in
      record {
        store = sent.0;
        grants = 1;
        sends = 1;
        result = in_time (ltb at attempt_deadline) sent.1;
      }

  unfoldable pub reserved :
      Adapter
      → ValidatedIndicator
      → Instant
      → Round S
      → S × Result ReservationError Unit
      → Step Value S
  unfolding sending
  reserved a i deadline r (s, err (limited delay)) = record {
    store = s;
    grants = 0;
    sends = 0;
    result = ok (limited_by delay);
  }
  reserved a i deadline r (s, err (storage e)) = record {
    store = s;
    grants = 0;
    sends = 0;
    result = err storage_unavailable;
  }
  reserved a i deadline r (s, ok _) =
      if leb deadline r.reserved_at
      then record { store = s; grants = 1; sends = 0; result = err provider_timeout }
      else sending a i (min deadline (r.sent_at + provider_timeout_limit)) r r.answered_at s

  -- the block of the loop
  unfoldable pub attempt : Adapter → ValidatedIndicator → Instant → Round S → S → Step Value S
  unfolding reserved
  attempt a i deadline r s =
      if r.provider_open && r.global_open
      then reserved a i deadline r (t.store.reserve a.id s)
      else record { store = s; grants = 0; sends = 0; result = err provider_busy }

  unfoldable pub delay : Option Duration → Duration
  delay none = from_millis 200
  delay (some retry_after) = max retry_after (from_millis 200)

  unfoldable pub retries : ℕ → Instant → Instant → Attempt Value → Bool
  unfolding delay
  retries number deadline now result =
      number == 0
      && (result.retry
          && leb (plus (delay result.retry_after) provider_timeout_limit) (deadline - now))

  abbrev end : Step Value S → Outcome Value → Fetched Value S
  end step outcome = record {
    store = step.store;
    grants = step.grants;
    sends = step.sends;
    slept = 0;
    outcome = outcome;
  }

  -- the attempt, the sleep behind it and the rest
  abbrev pub add_up : Step Value S → Duration → Fetched Value S → Fetched Value S
  add_up step pause later = record later {
    grants = step.grants + later.grants;
    sends = step.sends + later.sends;
    slept = pause + later.slept;
  }

  -- what follows an attempt; `later` is the rest of the loop
  unfoldable pub decide :
      ℕ
      → Instant
      → Round S
      → Step Value S
      → Result {0} ErrorCode (Attempt Value)
      → Fetched Value S
      → Fetched Value S
  unfolding retries delay
  decide number deadline r step (err code) later = end step (Outcome.failure code)
  decide number deadline r step (ok result) later =
      if retries number deadline r.decided_at result
      then add_up step (delay result.retry_after) later
      else end step result.outcome

  -- the rounds that are left, from the number of the first
  unfoldable pub fetch_rounds :
      Adapter → ValidatedIndicator → Instant → (ℕ → Round S) → ℕ → ℕ → S → Fetched Value S
  unfolding attempt decide
  fetch_rounds a i deadline rounds zero number s = record {
    store = s;
    grants = 0;
    sends = 0;
    slept = 0;
    outcome = Outcome.failure internal_error;
  }
  fetch_rounds a i deadline rounds (suc left) number s =
      let step = attempt a i deadline (rounds number) s in
      decide number deadline (rounds number) step step.result
        (fetch_rounds a i deadline rounds left (suc number) step.store)

  -- `for attempt in 0..=1`
  unfoldable pub fetch :
      Adapter → ValidatedIndicator → Instant → (ℕ → Round S) → S → Fetched Value S
  unfolding fetch_rounds
  fetch a i deadline rounds s = fetch_rounds a i deadline rounds 2 0 s
