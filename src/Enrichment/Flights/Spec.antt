-- ===== src/Enrichment/Flights/Spec.antt =====
-- The flights of src/enrichment.rs without channels: which keys are looked up, and what each caller waits for or was told.
use rust_enrich.Common.{
  ℕ, ◌≡◌, refl, Bool, true, false, not, ◌||◌, List, [], ◌∷◌, map, ◌==◌, leb, keep, any, all, length,
  if◌then◌else◌, arith, subst, ap, ◌∙◌, Option, none, some, is_some, is_none,
}
use rust_enrich.Enrichment.Lookup.{LookupResult}
use rust_enrich.Enrichment.Flights.{
  FlightKey, Flight, key_eq, is_flight, flight_of, Service, Reply, set_channel, start, register_at,
  register, complete, cancel, Event, arrives, completes, cancels, Step, arrival, completion,
  cancellation, Reachable,
}
use rust_enrich.Enrichment.Flights.Keys.{Distinct, flight_of-some, flight_agree}
use rust_enrich.Enrichment.Flights.Invariant.{all_open, IsSound, Reachable-IsSound, is_served}

pub data Caller (Value : Type 0) : Type 0 where
  waits : FlightKey → Caller Value
  told : LookupResult Value → Caller Value

pub record Lookups (Value : Type 0) : Type 0 where
  pub bound : ℕ
  pub stopped : Bool
  pub running : List FlightKey
  pub callers : List (Caller Value)

keep-map :
    (k : FlightKey) (fs : List Flight)
    → map (λ f. f.0) (keep (λ f. not (key_eq k f.0)) fs)
      ≡ keep (λ m. not (key_eq k m)) (map (λ f. f.0) fs)
keep-map k [] = refl
keep-map k (f ∷ fs) = ground (arith, keep-map k fs)

any-map :
    (k : FlightKey) (fs : List Flight)
    → any (key_eq k) (map (λ f. f.0) fs) ≡ is_some (flight_of k fs)
unfolding flight_of
any-map k [] = refl
any-map k (f ∷ fs) = ground (arith, any-map k fs)

length-map :
    (fs : List Flight) → length (map {A = Flight} {B = FlightKey} (λ f. f.0) fs) ≡ length fs
length-map [] = refl
length-map (f ∷ fs) = ground (arith, length-map fs)

map-agree :
    {A B : Type 0} (p : A → Bool) (u v : A → B) (t : B → B) (xs : List A)
    → ((x : A) → p x ≡ true → u x ≡ t (v x))
    → all p xs ≡ true
    → map u xs ≡ map t (map v xs)
map-agree p u v t [] h k = refl
map-agree p u v t (x ∷ xs) h k = ground (arith, h x, map-agree p u v t xs h)

map-same :
    {A B : Type 0} (p : A → Bool) (u v : A → B) (xs : List A)
    → ((x : A) → p x ≡ true → u x ≡ v x)
    → all p xs ≡ true
    → map u xs ≡ map v xs
map-same p u v [] h k = refl
map-same p u v (x ∷ xs) h k = ground (arith, h x, map-same p u v xs h)

cons_eq : {A : Type 0} {x y : A} {xs ys : List A} → x ≡ y → xs ≡ ys → (x ∷ xs) ≡ (y ∷ ys)
cons_eq h k = cc

module _ {Value : Type 0} where
  -- A caller joins the lookup of its key, starts one, or is refused.
  unfoldable pub arrive : FlightKey → Lookups Value → Lookups Value
  arrive k l =
      if any (key_eq k) l.running
      then record l { callers = waits k ∷ l.callers }
      else if leb l.bound (length l.running) || l.stopped
      then l
      else record l { running = k ∷ l.running; callers = waits k ∷ l.callers }

  unfoldable pub tell : FlightKey → LookupResult Value → Caller Value → Caller Value
  tell k r (waits l) = if key_eq k l then told r else waits l
  tell k r (told q) = told q

  -- The end of a lookup tells exactly the callers that wait for its key.
  unfoldable pub spec : Event Value → Lookups Value → Lookups Value
  unfolding arrive tell
  spec (arrives k) l = arrive k l
  spec (completes k r) l = record l {
    running = keep (λ m. not (key_eq k m)) l.running;
    callers = map (tell k r) l.callers;
  }
  spec cancels l = record l { stopped = true }

  unfoldable pub caller_of : Option (LookupResult Value) → FlightKey → Caller Value
  caller_of none k = waits k
  caller_of (some r) k = told r

  unfoldable pub view : Service Value → Lookups Value
  unfolding caller_of
  view s = record {
    bound = s.max_shared_lookups;
    stopped = s.cancelled;
    running = map (λ f. f.0) s.flights;
    callers = map (λ f. caller_of (s.channels f.1) f.0) s.callers;
  }

  tell-value :
      (k l : FlightKey) (r : LookupResult Value) (b : Bool) (v : Option (LookupResult Value))
      → (is_some v ≡ true → b ≡ false)
      → (is_some v ≡ false → key_eq k l ≡ b)
      → caller_of (if b then some r else v) l ≡ tell k r (caller_of v l)
  unfolding caller_of tell
  tell-value k l r b none h g = ground (arith, g refl)
  tell-value k l r b (some q) h g = ground (arith, h refl)

  open-at :
      (channels : ℕ → Option (LookupResult Value)) (k : FlightKey) (c : ℕ) (fs : List Flight)
      → all_open channels fs ≡ true
      → is_flight k c fs ≡ true
      → is_none (channels c) ≡ true
  unfolding is_flight
  open-at channels k c [] h i = cc
  open-at channels k c ((l, e) ∷ fs) h i = ground (arith, open-at channels k c fs)

  other-channel :
      (channels : ℕ → Option (LookupResult Value)) (c e : ℕ)
      → is_none (channels c) ≡ true
      → is_some (channels e) ≡ true
      → (e == c) ≡ false
  other-channel channels c e h i = ground arith

  served-flight :
      (n : ℕ) (channels : ℕ → Option (LookupResult Value)) (fs : List Flight) (l : FlightKey)
      (e : ℕ)
      → is_served n channels fs (l, e) ≡ true
      → is_some (channels e) ≡ false
      → is_flight l e fs ≡ true
  unfolding is_served
  served-flight n channels fs l e h i = ground arith

  -- What a caller sees of the end of a flight.
  tell-caller :
      (n : ℕ) (channels : ℕ → Option (LookupResult Value)) (flights : List Flight) (k : FlightKey)
      (c : ℕ) (r : LookupResult Value) (f : Flight)
      → Distinct n flights
      → is_flight k c flights ≡ true
      → is_none (channels c) ≡ true
      → is_served n channels flights f ≡ true
      → caller_of (set_channel c (some r) channels f.1) f.0
        ≡ tell k r (caller_of (channels f.1) f.0)
  tell-caller n channels flights k c r (l, e) d h o w =
      tell-value k l r (e == c) (channels e) (other-channel channels c e o)
        (λ v. flight_agree n k l c e flights d h (served-flight n channels flights l e w v))

  lookups_eq :
      (bound : ℕ) (stopped : Bool) (running running' : List FlightKey)
      (callers callers' : List (Caller Value))
      → running ≡ running'
      → callers ≡ callers'
      → Path
          (Lookups Value)
          (record { bound = bound; stopped = stopped; running = running; callers = callers })
          (record { bound = bound; stopped = stopped; running = running'; callers = callers' })
  lookups_eq bound stopped running running' callers callers' h k = cc

  complete-view :
      (k : FlightKey) (c : ℕ) (r : LookupResult Value) (s : Service Value)
      → IsSound s
      → is_flight k c s.tasks ≡ true
      → view (complete k c r s) ≡ spec (completes k r) (view s)
  unfolding view spec complete
  complete-view k c r s i h =
      let there = subst (λ fs. is_flight k c fs ≡ true) i.same h in
      lookups_eq s.max_shared_lookups s.cancelled _ _ _ _ (keep-map k s.flights) (
        map-agree (is_served s.created s.channels s.flights) _ _ (tell k r) s.callers
          (λ f.
            tell-caller s.created s.channels s.flights k c r f i.distinct there
              (open-at s.channels k c s.flights i.unpublished there))
          i.served)

  abbrev started : FlightKey → Lookups Value → Lookups Value
  started k l = record l { running = k ∷ l.running; callers = waits k ∷ l.callers }

  new-channel :
      (c : ℕ) (channels : ℕ → Option (LookupResult Value)) (k : FlightKey)
      → caller_of (set_channel c none channels c) k ≡ waits k
  unfolding caller_of
  new-channel c channels k = ground arith

  old-channel :
      (c : ℕ) (channels : ℕ → Option (LookupResult Value)) (flights : List Flight) (f : Flight)
      → is_served c channels flights f ≡ true
      → caller_of (set_channel c none channels f.1) f.0 ≡ caller_of (channels f.1) f.0
  unfolding caller_of is_served
  old-channel c channels flights f h = ground arith

  start-view :
      (k : FlightKey) (s : Service Value) → IsSound s → view (start k s) ≡ started k (view s)
  unfolding view
  start-view k s i = lookups_eq s.max_shared_lookups s.cancelled _ _ _ _ refl (
      cons_eq (new-channel s.created s.channels k) (
        map-same (is_served s.created s.channels s.flights) _ _ s.callers
          (old-channel s.created s.channels s.flights) i.served))

  open-caller :
      (v : Option (LookupResult Value)) (k : FlightKey) → is_none v ≡ true → caller_of v k ≡ waits k
  unfolding caller_of
  open-caller none k h = refl
  open-caller (some r) k h = cc

  arrive-joins :
      (k : FlightKey) (l : Lookups Value)
      → any (key_eq k) l.running ≡ true
      → record l { callers = waits k ∷ l.callers } ≡ arrive k l
  unfolding arrive
  arrive-joins k l h = ground (arith, h)

  arrive-asks :
      (k : FlightKey) (l : Lookups Value) (n : ℕ)
      → any (key_eq k) l.running ≡ false
      → length l.running ≡ n
      → (if leb l.bound n || l.stopped then l else started k l) ≡ arrive k l
  unfolding arrive
  arrive-asks k l n h e = ground (arith, h, e)

  if-view :
      (full stopped : Bool) (busy unavailable new : Service Value × Reply) (l l' : Lookups Value)
      → view busy.0 ≡ l
      → view unavailable.0 ≡ l
      → view new.0 ≡ l'
      → view
          (if◌then◌else◌ {A = Service Value × Reply} full busy
            (if stopped then unavailable else new)).0
        ≡ (if full || stopped then l else l')
  if-view true stopped busy unavailable new l l' a b c = a
  if-view false true busy unavailable new l l' a b c = b
  if-view false false busy unavailable new l l' a b c = c

  register_at-view :
      (k : FlightKey) (found : Option ℕ) (s : Service Value)
      → flight_of k s.flights ≡ found
      → IsSound s
      → view (register_at k found s).0 ≡ arrive k (view s)
  unfolding register_at view
  register_at-view k (some c) s h i =
      let there = flight_of-some k c s.flights h in
      lookups_eq s.max_shared_lookups s.cancelled _ _ _ _ refl (
        ap (λ caller. caller ∷ map (λ f. caller_of (s.channels f.1) f.0) s.callers)
          (open-caller (s.channels c) k (open-at s.channels k c s.flights i.unpublished there)))
      ∙ arrive-joins k (view s) (any-map k s.flights ∙ ap is_some h)
  register_at-view k none s h i =
      if-view (leb s.max_shared_lookups (length s.flights)) s.cancelled _ _ _ (view s)
        (started k (view s)) refl refl (start-view k s i)
      ∙ arrive-asks k (view s) (length s.flights) (any-map k s.flights ∙ ap is_some h)
          (length-map s.flights)

  -- Each step from a state that the service reaches is, seen without channels, the step of the specification: one
  -- lookup for the callers of a key, at most the bound of them, whose result is told exactly to those that wait for it.
  pub step-view :
      (n : ℕ) (e : Event Value) (s s' : Service Value)
      → Reachable n s
      → Step e s s'
      → view s' ≡ spec e (view s)
  unfolding register cancel spec view
  step-view n _ _ _ h (arrival k s) =
      register_at-view k (flight_of k s.flights) s refl (Reachable-IsSound n s h)
  step-view n _ _ _ h (completion k c r s running) =
      complete-view k c r s (Reachable-IsSound n s h) running
  step-view n _ _ _ h (cancellation s) = refl
