-- ===== src/Enrichment/Fetch/Retries.antt =====
-- When `fetch` of src/enrichment.rs repeats an attempt.
use rust_enrich.Common.{
  ℕ, ◌+◌, ◌≤◌, ◌≡◌, refl, max, true, Option, none, some, Result, ok, err, if◌then◌else◌, arith, ap,
  ◌∙◌, subst, sym,
}
use rust_enrich.Domain.Errors.{ErrorCode}
use rust_enrich.Domain.Outcome.{Outcome}
use rust_enrich.Domain.Outcome
use rust_enrich.Domain.Indicator.{ValidatedIndicator}
use rust_enrich.Config.{Duration}
use rust_enrich.Providers.Adapter.{Adapter}
use rust_enrich.Enrichment.Send.{Tools, Attempt}
use rust_enrich.Enrichment.Fetch.Loop.{attempt-sends}
use rust_enrich.Enrichment.Fetch.{
  Instant, Round, Step, Fetched, attempt, retries, decide, end, add_up, fetch_rounds, fetch, delay,
  plus, from_millis,
}

module _ {Value S : Type 0} (t : Tools Value S) (limit : Duration) where
  last : Step Value S → Result {0} ErrorCode (Attempt Value) → Fetched Value S
  last step (err code) = end t limit step (Outcome.failure code)
  last step (ok result) = end t limit step result.outcome

  repeat_if :
      Instant
      → Instant
      → Step Value S
      → Result {0} ErrorCode (Attempt Value)
      → Fetched Value S
      → Fetched Value S
  repeat_if deadline now first (err code) second = end t limit first (Outcome.failure code)
  repeat_if deadline now first (ok result) second =
      if retries t limit 0 deadline now result
      then add_up t limit first (delay t limit result.retry_after) second
      else end t limit first result.outcome

  -- The loop without its counter: the first attempt, and the second if the first is to be repeated.
  unfoldable pub two_attempts :
      Adapter → ValidatedIndicator → Instant → (ℕ → Round S) → S → Fetched Value S
  unfolding last repeat_if
  two_attempts a i deadline rounds s =
      let first = attempt t limit a i deadline (rounds 0) s in
      let second = attempt t limit a i deadline (rounds 1) first.store in
      repeat_if deadline (rounds 0).decided_at first first.result (last second second.result)

  decide-last :
      (deadline : Instant) (r : Round S) (step : Step Value S)
      (result : Result {0} ErrorCode (Attempt Value)) (later : Fetched Value S)
      → decide t limit 1 deadline r step result later ≡ last step result
  unfolding decide last retries
  decide-last deadline r step (err code) later = refl
  decide-last deadline r step (ok result) later = refl

  decide-first :
      (deadline : Instant) (r : Round S) (step : Step Value S)
      (result : Result {0} ErrorCode (Attempt Value)) (later : Fetched Value S)
      → decide t limit 0 deadline r step result later
        ≡ repeat_if deadline r.decided_at step result later
  unfolding decide repeat_if
  decide-first deadline r step (err code) later = refl
  decide-first deadline r step (ok result) later = refl

  -- `fetch` makes the first attempt, and the second exactly if the first is to be repeated; its outcome is the last
  -- attempt's, or that attempt's error, and the code behind the loop is never reached.
  pub fetch_lem :
      (a : Adapter) (i : ValidatedIndicator) (deadline : Instant) (rounds : ℕ → Round S) (s : S)
      → fetch t limit a i deadline rounds s ≡ two_attempts a i deadline rounds s
  unfolding fetch fetch_rounds two_attempts
  fetch_lem a i deadline rounds s =
      let first = attempt t limit a i deadline (rounds 0) s in
      let second = attempt t limit a i deadline (rounds 1) first.store in
      decide-first deadline (rounds 0) first first.result _
      ∙ ap (repeat_if deadline (rounds 0).decided_at first first.result)
          (decide-last deadline (rounds 1) second second.result _)

  abbrev or_zero : Option Duration → Duration
  or_zero none = 0
  or_zero (some d) = d

  -- What a second request needs of the first attempt.
  unfoldable pub IsRepeatable :
      Instant → Instant → Duration → Result {0} ErrorCode (Attempt Value) → Type 0
  IsRepeatable deadline now slept (err code) = ⊥
  IsRepeatable deadline now slept (ok result) =
      (result.retry ≡ true)
      × (plus (delay t limit result.retry_after) limit + now ≤ deadline)
      × (max (from_millis 200) (or_zero result.retry_after) ≤ delay t limit result.retry_after)
      × (delay t limit result.retry_after ≤ slept)

  repeat_if-IsRepeatable :
      (deadline now : Instant) (first : Step Value S)
      (result : Result {0} ErrorCode (Attempt Value)) (second : Fetched Value S)
      → first.sends ≤ 1
      → (repeat_if deadline now first result second).sends ≡ 2
      → IsRepeatable deadline now (repeat_if deadline now first result second).slept result
  unfolding repeat_if IsRepeatable retries delay
  repeat_if-IsRepeatable deadline now first (err code) second h e = omega arith
  repeat_if-IsRepeatable deadline now first (ok result) second h e =
      (ground arith, ground arith, ground arith, ground arith)

  -- If a lookup sends two requests, the first attempt asked to be repeated, and when that was decided its delay and a whole
  -- provider timeout were left before the deadline; the delay is at least 200 ms and what
  -- Retry-After asks for, and at least that long it slept.
  pub fetch-IsRepeatable :
      (a : Adapter) (i : ValidatedIndicator) (deadline : Instant) (rounds : ℕ → Round S) (s : S)
      → (fetch t limit a i deadline rounds s).sends ≡ 2
      → IsRepeatable deadline
          (rounds 0).decided_at
          (fetch t limit a i deadline rounds s).slept
          (attempt t limit a i deadline (rounds 0) s).result
  unfolding two_attempts
  fetch-IsRepeatable a i deadline rounds s e =
      let first = attempt t limit a i deadline (rounds 0) s in
      let second = attempt t limit a i deadline (rounds 1) first.store in
      let same = fetch_lem a i deadline rounds s in
      subst
        (λ (f : Fetched Value S). IsRepeatable deadline (rounds 0).decided_at f.slept first.result)
        (sym same)
        (repeat_if-IsRepeatable deadline (rounds 0).decided_at first first.result
          (last second second.result) (attempt-sends t limit a i deadline (rounds 0) s)
          (subst (λ (f : Fetched Value S). f.sends ≡ 2) same e))
