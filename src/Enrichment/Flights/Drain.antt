-- ===== src/Enrichment/Flights/Drain.antt =====
-- Every caller of a flight of src/enrichment.rs gets an answer when the tasks end.
use rust_enrich.Common.{
  ℕ, ◌≡◌, refl, Bool, true, not, List, [], ◌∷◌, ◌==◌, keep, all, arith, subst, sym, ap, ◌∙◌,
  is_some,
}
use rust_enrich.Enrichment.Lookup.{LookupResult}
use rust_enrich.Enrichment.Flights.{
  FlightKey, Flight, is_flight, Service, complete, Reachable, completion, completes, next,
}
use rust_enrich.Enrichment.Flights.Keys.{Distinct, key_eq_refl, keep-all_channels}
use rust_enrich.Enrichment.Flights.Invariant.{
  IsSound, complete-IsSound, Reachable-IsSound, is_served, all_mono,
}

-- the tasks that are left when the first has ended
complete-rest :
    (k : FlightKey) (c : ℕ) (n : ℕ) (tasks : List Flight)
    → Distinct n ((k, c) ∷ tasks)
    → keep (λ f. not (f.1 == c)) ((k, c) ∷ tasks) ≡ tasks
unfolding Distinct
complete-rest k c n tasks (b, u, d) = ground (arith, keep-all_channels c c tasks d (omega arith))

first-is_flight :
    (k : FlightKey) (c : ℕ) (tasks : List Flight) → is_flight k c ((k, c) ∷ tasks) ≡ true
unfolding is_flight
first-is_flight k c tasks = ground (arith, key_eq_refl k)

module _ {Value : Type 0} where
  -- The tasks end one after another, each with its result.
  unfoldable pub finish : (ℕ → LookupResult Value) → List Flight → Service Value → Service Value
  finish results [] s = s
  finish results ((k, c) ∷ tasks) s = finish results tasks (complete k c (results c) s)

  unfoldable pub is_answered : Service Value → Flight → Bool
  is_answered s f = is_some (s.channels f.1)

  complete-tasks :
      (k : FlightKey) (c : ℕ) (r : LookupResult Value) (tasks : List Flight) (s : Service Value)
      → IsSound s
      → s.tasks ≡ (k, c) ∷ tasks
      → (complete k c r s).tasks ≡ tasks
  unfolding complete
  complete-tasks k c r tasks s i e =
      ap (keep (λ f. not (f.1 == c))) e
      ∙ complete-rest k c s.created tasks (subst (Distinct s.created) (sym i.same ∙ e) i.distinct)

  runs :
      (k : FlightKey) (c : ℕ) (tasks : List Flight) (s : Service Value)
      → s.tasks ≡ (k, c) ∷ tasks
      → is_flight k c s.tasks ≡ true
  runs k c tasks s e = subst (λ fs. is_flight k c fs ≡ true) (sym e) (first-is_flight k c tasks)

  finish-tasks :
      (results : ℕ → LookupResult Value) (tasks : List Flight) (s : Service Value)
      → IsSound s
      → s.tasks ≡ tasks
      → IsSound (finish results tasks s) × ((finish results tasks s).tasks ≡ [])
  unfolding finish
  finish-tasks results [] s i e = (i, e)
  finish-tasks results ((k, c) ∷ tasks) s i e =
      finish-tasks results tasks (complete k c (results c) s)
        (complete-IsSound k c (results c) s i (runs k c tasks s e))
        (complete-tasks k c (results c) tasks s i e)

  finish-Reachable :
      (n : ℕ) (results : ℕ → LookupResult Value) (tasks : List Flight) (s : Service Value)
      → Reachable n s
      → s.tasks ≡ tasks
      → Reachable n (finish results tasks s)
  unfolding finish
  finish-Reachable n results [] s h e = h
  finish-Reachable n results ((k, c) ∷ tasks) s h e =
      finish-Reachable n results tasks (complete k c (results c) s)
        (next (completes k (results c)) s _ h (completion k c (results c) s (runs k c tasks s e)))
        (complete-tasks k c (results c) tasks s (Reachable-IsSound n s h) e)

  finish-callers :
      (results : ℕ → LookupResult Value) (tasks : List Flight) (s : Service Value)
      → (finish results tasks s).callers ≡ s.callers
  unfolding finish complete
  finish-callers results [] s = refl
  finish-callers results ((k, c) ∷ tasks) s =
      finish-callers results tasks (complete k c (results c) s)

  served-answered :
      (s : Service Value) (flights : List Flight)
      → flights ≡ []
      → (f : Flight) → is_served s.created s.channels flights f ≡ true
      → is_answered s f ≡ true
  unfolding is_served is_answered is_flight
  served-answered s [] e f h = ground arith
  served-answered s (g ∷ flights) e f h = cc

  all-answered :
      (s : Service Value) → IsSound s → s.tasks ≡ [] → all (is_answered s) s.callers ≡ true
  all-answered s i e =
      all_mono (is_served s.created s.channels s.flights) (is_answered s) s.callers
        (served-answered s s.flights (sym i.same ∙ e)) i.served

  -- From every state that the service reaches, when the running tasks end, each with any result, it reaches a state
  -- whose table is empty and in which every caller that waits has its answer.
  pub finish-Answered :
      (n : ℕ) (results : ℕ → LookupResult Value) (s : Service Value)
      → Reachable n s
      → Reachable n (finish results s.tasks s)
        × ((finish results s.tasks s).flights ≡ [])
        × (all (is_answered (finish results s.tasks s)) s.callers ≡ true)
  finish-Answered n results s h =
      let (i, e) = finish-tasks results s.tasks s (Reachable-IsSound n s h) refl in
      (
        finish-Reachable n results s.tasks s h refl,
        sym i.same ∙ e,
        ap (all (is_answered (finish results s.tasks s))) (sym (finish-callers results s.tasks s))
            ∙ all-answered (finish results s.tasks s) i e,
      )
