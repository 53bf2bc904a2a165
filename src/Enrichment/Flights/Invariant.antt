-- ===== src/Enrichment/Flights/Invariant.antt =====
-- What holds of the flights of src/enrichment.rs in every state.
use rust_enrich.Common.{
  ℕ, suc, ◌<◌, ◌≤◌, ◌≡◌, refl, Bool, true, false, not, ◌&&◌, ◌||◌, List, [], ◌∷◌, ◌==◌, leb, ltb,
  keep, all, length, if◌then◌else◌, arith, subst, sym, ap, ◌∙◌, Option, none, some, is_some,
  is_none,
}
use rust_enrich.Enrichment.Lookup.{LookupResult}
use rust_enrich.Enrichment.Flights.{
  FlightKey, Flight, key_eq, is_flight, flight_of, Service, Reply, set_channel, start, register_at,
  register, complete, cancel, empty_service, Event, Step, arrival, completion, cancellation,
  Reachable, initial, next,
}
use rust_enrich.Enrichment.Flights.Keys.{
  Distinct, Distinct-keep, keep_agree, is_flight-below, flight_of-some, flight_of-none, key_eq_refl,
}

both_true : {a b : Bool} → a ≡ true → b ≡ true → (a && b) ≡ true
both_true h k = ground (arith, h, k)

pub all_mono :
    {A : Type 0} (p q : A → Bool) (xs : List A)
    → ((x : A) → p x ≡ true → q x ≡ true)
    → all p xs ≡ true
    → all q xs ≡ true
all_mono p q [] h k = refl
all_mono p q (x ∷ xs) h k = ground (arith, h x, all_mono p q xs h)

is_flight-keep :
    (l : FlightKey) (e c : ℕ) (fs : List Flight)
    → (e == c) ≡ false
    → is_flight l e fs ≡ true
    → is_flight l e (keep (λ f. not (f.1 == c)) fs) ≡ true
unfolding is_flight
is_flight-keep l e c [] d h = h
is_flight-keep l e c ((m, f) ∷ fs) d h = ground (arith, is_flight-keep l e c fs d)

length-keep : (p : Flight → Bool) (fs : List Flight) → length (keep p fs) ≤ length fs
length-keep p [] = omega arith
length-keep p (f ∷ fs) = ground (arith, length-keep p fs)

module _ {Value : Type 0} where
  -- The channel of a caller is there, and has its answer or a flight that will publish one.
  unfoldable pub is_served : ℕ → (ℕ → Option (LookupResult Value)) → List Flight → Flight → Bool
  is_served created channels flights f =
      ltb f.1 created && (is_some (channels f.1) || is_flight f.0 f.1 flights)

  abbrev pub all_open : (ℕ → Option (LookupResult Value)) → List Flight → Bool
  all_open channels flights = all (λ f. is_none (channels f.1)) flights

  -- The table and the running tasks are the same flights, no two of one key, on channels that hold nothing; they are no
  -- more than the bound; and every caller is served.
  pub record IsSound (s : Service Value) : Type 0 where
    pub same : s.tasks ≡ s.flights
    pub distinct : Distinct s.created s.flights
    pub unpublished : all_open s.channels s.flights ≡ true
    pub served : all (is_served s.created s.channels s.flights) s.callers ≡ true
    pub within : length s.flights ≤ s.max_shared_lookups

  open_new :
      (c : ℕ) (channels : ℕ → Option (LookupResult Value))
      → is_none (set_channel c none channels c) ≡ true
  open_new c channels = ground arith

  open-start :
      (n : ℕ) (channels : ℕ → Option (LookupResult Value)) (c : ℕ) (fs : List Flight)
      → Distinct n fs
      → n ≤ c
      → all_open channels fs ≡ true
      → all_open (set_channel c none channels) fs ≡ true
  unfolding Distinct
  open-start n channels c [] d h k = refl
  open-start n channels c ((l, e) ∷ fs) (b, u, d) h k =
      ground (arith, open-start e channels c fs d (omega (arith, b, h)))

  served-start :
      (k : FlightKey) (c : ℕ) (channels : ℕ → Option (LookupResult Value)) (fs : List Flight)
      (f : Flight)
      → is_served c channels fs f ≡ true
      → is_served (suc c) (set_channel c none channels) ((k, c) ∷ fs) f ≡ true
  unfolding is_served is_flight
  served-start k c channels fs f h = ground arith

  served-new :
      (k : FlightKey) (c : ℕ) (channels : ℕ → Option (LookupResult Value)) (fs : List Flight)
      → is_served (suc c) channels ((k, c) ∷ fs) (k, c) ≡ true
  unfolding is_served is_flight
  served-new k c channels fs = ground (arith, key_eq_refl k)

  start-IsSound :
      (k : FlightKey) (s : Service Value)
      → IsSound s
      → flight_of k s.flights ≡ none
      → leb s.max_shared_lookups (length s.flights) ≡ false
      → IsSound (start k s)
  unfolding Distinct
  start-IsSound k s i h b = record {
    same = ap (λ fs. (k, s.created) ∷ fs) i.same;
    distinct = (omega arith, flight_of-none k s.flights h, i.distinct);
    unpublished = both_true (open_new s.created s.channels) (
        open-start s.created s.channels s.created s.flights i.distinct (omega arith) i.unpublished);
    served = both_true (served-new k s.created (set_channel s.created none s.channels) s.flights) (
        all_mono (is_served s.created s.channels s.flights) _ s.callers
          (served-start k s.created s.channels s.flights) i.served);
    within = ground arith;
  }

  open-keep :
      (channels : ℕ → Option (LookupResult Value)) (c : ℕ) (r : LookupResult Value)
      (fs : List Flight)
      → all_open channels fs ≡ true
      → all_open (set_channel c (some r) channels) (keep (λ f. not (f.1 == c)) fs) ≡ true
  open-keep channels c r [] h = refl
  open-keep channels c r ((l, e) ∷ fs) h = ground (arith, open-keep channels c r fs)

  served_complete :
      (n c : ℕ) (channels : ℕ → Option (LookupResult Value)) (r : LookupResult Value)
      (fs : List Flight) (f : Flight)
      → is_served n channels fs f ≡ true
      → is_served n (set_channel c (some r) channels) (keep (λ f. not (f.1 == c)) fs) f ≡ true
  unfolding is_served
  served_complete n c channels r fs f h = ground (arith, is_flight-keep f.0 f.1 c fs)

  all_served_complete :
      (s : Service Value) (c : ℕ) (r : LookupResult Value)
      → IsSound s
      → all
          (is_served s.created
            (set_channel c (some r) s.channels)
            (keep (λ f. not (f.1 == c)) s.flights))
          s.callers
        ≡ true
  all_served_complete s c r i =
      all_mono (is_served s.created s.channels s.flights) _ s.callers
        (served_complete s.created c s.channels r s.flights) i.served

  pub complete-IsSound :
      (k : FlightKey) (c : ℕ) (r : LookupResult Value) (s : Service Value)
      → IsSound s
      → is_flight k c s.tasks ≡ true
      → IsSound (complete k c r s)
  unfolding complete
  complete-IsSound k c r s i h =
      let agree =
        keep_agree s.created k c s.flights i.distinct
          (subst (λ fs. is_flight k c fs ≡ true) i.same h) in
      record {
        same = ap (keep (λ f. not (f.1 == c))) i.same ∙ sym agree;
        distinct = Distinct-keep s.created k s.flights i.distinct;
        unpublished =
            subst (λ fs. all_open (set_channel c (some r) s.channels) fs ≡ true) (sym agree)
              (open-keep s.channels c r s.flights i.unpublished);
        served =
            subst
              (λ fs.
                all (is_served s.created (set_channel c (some r) s.channels) fs) s.callers ≡ true)
              (sym agree) (all_served_complete s c r i);
        within = omega (arith, length-keep (λ f. not (key_eq k f.0)) s.flights, i.within);
      }

  served-flight :
      (n : ℕ) (channels : ℕ → Option (LookupResult Value)) (fs : List Flight) (k : FlightKey)
      (c : ℕ)
      → c < n
      → is_flight k c fs ≡ true
      → is_served n channels fs (k, c) ≡ true
  unfolding is_served
  served-flight n channels fs k c b h = ground (arith, h)

  if-IsSound :
      (full cancelled : Bool) (busy unavailable started : Service Value × Reply)
      → IsSound busy.0
      → IsSound unavailable.0
      → (full ≡ false → IsSound started.0)
      → IsSound
          (if◌then◌else◌ {A = Service Value × Reply} full busy
            (if cancelled then unavailable else started)).0
  if-IsSound true cancelled busy unavailable started h k l = h
  if-IsSound false true busy unavailable started h k l = k
  if-IsSound false false busy unavailable started h k l = l refl

  register_at-IsSound :
      (k : FlightKey) (found : Option ℕ) (s : Service Value)
      → flight_of k s.flights ≡ found
      → IsSound s
      → IsSound (register_at k found s).0
  unfolding register_at
  register_at-IsSound k (some c) s h i =
      let there = flight_of-some k c s.flights h in
      record {
        same = i.same;
        distinct = i.distinct;
        unpublished = i.unpublished;
        served =
            both_true
              (served-flight s.created s.channels s.flights k c
                (is_flight-below s.created k c s.flights i.distinct there) there)
              i.served;
        within = i.within;
      }
  register_at-IsSound k none s h i =
      if-IsSound (leb s.max_shared_lookups (length s.flights)) s.cancelled _ _ _ i i
        (start-IsSound k s i h)

  initial-IsSound : (n : ℕ) → IsSound (empty_service n)
  unfolding empty_service Distinct
  initial-IsSound n = record {
    same = refl;
    distinct = tt;
    unpublished = refl;
    served = refl;
    within = omega arith;
  }

  pub step-IsSound : (e : Event Value) (s s' : Service Value) → Step e s s' → IsSound s → IsSound s'
  unfolding register cancel
  step-IsSound _ _ _ (arrival k s) i = register_at-IsSound k (flight_of k s.flights) s refl i
  step-IsSound _ _ _ (completion k c r s h) i = complete-IsSound k c r s i h
  step-IsSound _ _ _ (cancellation s) i = record {
    same = i.same;
    distinct = i.distinct;
    unpublished = i.unpublished;
    served = i.served;
    within = i.within;
  }

  -- In every state that arrivals, completions and the cancellation reach, in whatever order: the running tasks are the
  -- flights of the table, which are no more than `max_shared_lookups`, no two of one key, on channels that hold nothing
  -- yet, and every caller's channel has its answer or such a flight.
  pub Reachable-IsSound : (n : ℕ) (s : Service Value) → Reachable n s → IsSound s
  Reachable-IsSound n _ initial = initial-IsSound n
  Reachable-IsSound n _ (next e s s' before step) =
      step-IsSound e s s' step (Reachable-IsSound n s before)
