-- ===== src/Enrichment/Caller/Told.antt =====
-- Every caller of `lookup` in src/enrichment.rs that waits is told a result.
use rust_enrich.Common.{
  ℕ, ◌≡◌, refl, Bool, true, false, List, [], ◌∷◌, ◌==◌, all, any, Option, none, some, Result, ok,
  err, is_some, if◌then◌else◌, arith, subst,
}
use rust_enrich.Common.Text.{Text}
use rust_enrich.Domain.Types.{ProviderId}
use rust_enrich.Domain.Indicator.{ValidatedIndicator}
use rust_enrich.Storage.Types.{StorageError}
use rust_enrich.Providers.Adapter.{Adapter, supports}
use rust_enrich.Enrichment.Lookup.{LookupResult}
use rust_enrich.Enrichment.Store.{Store, CachedOutcome}
use rust_enrich.Enrichment.Flights.{
  FlightKey, Flight, Service, Reply, refused, receives, register_at, register, flight_of, Reachable,
  arrives, arrival, next,
}
use rust_enrich.Enrichment.Flights.Drain.{finish, is_answered, finish-Answered}
use rust_enrich.Enrichment.Caller.{
  World, Subscribed, answered, waiting, subscribed, enter, after_cache, subscribe, start_lookup,
}

abbrev waits_on : ℕ → List Flight → Bool
waits_on c callers = any (λ f. f.1 == c) callers

module _ {Value : Type 0} where
  register_at-waits :
      (k : FlightKey) (found : Option ℕ) (s : Service Value) (c : ℕ) (joined : Bool)
      → (register_at k found s).1 ≡ receives c joined
      → waits_on c (register_at k found s).0.callers ≡ true
  unfolding register_at
  register_at-waits k (some d) s c joined h = ground arith
  register_at-waits k none s c joined h = ground arith

module _ {Value S : Type 0} where
  -- The service is reached by a step or none, and a caller that waits is among its callers.
  IsEntered : ℕ → World Value S × Subscribed Value → Type 0
  IsEntered n (w, answered r) = Reachable n w.service
  IsEntered n (w, waiting c joined) = Reachable n w.service × (waits_on c w.service.callers ≡ true)

  module _ (store : Store Value S) where
    subscribed-IsEntered :
        (n : ℕ) (w : World Value S) (reply : Reply)
        → Reachable n w.service
        → ((c : ℕ) (joined : Bool)
            → reply ≡ receives c joined
            → waits_on c w.service.callers ≡ true)
        → IsEntered n (w, subscribed store reply)
    unfolding IsEntered
    subscribed-IsEntered n w (refused code) h k = h
    subscribed-IsEntered n w (receives c joined) h k = (h, k c joined refl)

    enter-IsEntered :
        (n : ℕ) (id : ProviderId) (key : Text) (w : World Value S)
        → Reachable n w.service
        → IsEntered n (enter store id key w)
    unfolding register
    enter-IsEntered n id key w h =
        let (s, reply) = register (id, key) w.service in
        subscribed-IsEntered n (record w { service = s }) reply
          (next (arrives (id, key)) w.service s h (arrival (id, key) w.service))
          (register_at-waits (id, key) (flight_of (id, key) w.service.flights) w.service)

    after_cache-IsEntered :
        (n : ℕ) (id : ProviderId) (key : Text) (w : World Value S)
        (read : Result StorageError (Option (CachedOutcome Value)))
        → Reachable n w.service
        → IsEntered n (after_cache store id key w read)
    unfolding after_cache IsEntered
    after_cache-IsEntered n id key w (ok (some c)) h = h
    after_cache-IsEntered n id key w (ok none) h = enter-IsEntered n id key w h
    after_cache-IsEntered n id key w (err e) h = enter-IsEntered n id key w h

    subscribe-IsEntered :
        (n : ℕ) (id : ProviderId) (i : ValidatedIndicator) (key : Option Text)
        (cut : Option (S → S)) (w : World Value S)
        → Reachable n w.service
        → IsEntered n (subscribe store id i key cut w)
    unfolding subscribe IsEntered
    subscribe-IsEntered n id i none cut w h = h
    subscribe-IsEntered n id i (some key) (some cut) w h = h
    subscribe-IsEntered n id i (some key) none w h =
        let (s, read) = store.cache_get id key i.input.kind w.store in
        after_cache-IsEntered n id key (record w { store = s }) read h

    if-IsEntered :
        (n : ℕ) (b : Bool) (x y : World Value S × Subscribed Value)
        → IsEntered n x
        → IsEntered n y
        → IsEntered n (if b then x else y)
    if-IsEntered n true x y h k = h
    if-IsEntered n false x y h k = k

    start_lookup-IsEntered :
        (n : ℕ) (a : Option Adapter) (i : ValidatedIndicator) (key : Option Text)
        (cut : Option (S → S)) (w : World Value S)
        → Reachable n w.service
        → IsEntered n (start_lookup store a i key cut w)
    unfolding start_lookup IsEntered
    start_lookup-IsEntered n none i key cut w h = h
    start_lookup-IsEntered n (some a) i key cut w h =
        if-IsEntered n (supports a i.input.kind) _ _ (subscribe-IsEntered n a.id i key cut w h) h

    answered-at :
        (s : Service Value) (c : ℕ) (callers : List Flight)
        → all (is_answered s) callers ≡ true
        → waits_on c callers ≡ true
        → is_some (s.channels c) ≡ true
    unfolding is_answered
    answered-at s c [] h k = cc
    answered-at s c (f ∷ callers) h k = ground (arith, answered-at s c callers)

    entered-told :
        (n : ℕ) (results : ℕ → LookupResult Value) (w : World Value S) (c : ℕ) (joined : Bool)
        → IsEntered n (w, waiting c joined)
        → is_some ((finish results w.service.tasks w.service).channels c) ≡ true
    unfolding IsEntered
    entered-told n results w c joined (h, k) =
        answered-at (finish results w.service.tasks w.service) c w.service.callers
          (finish-Answered n results w.service h).2 k

    -- From every state that the service reaches, a caller that `lookup` leaves waiting on a channel finds a result there when the
    -- tasks that then run have ended, each with any result.
    pub start_lookup-told :
        (n : ℕ) (results : ℕ → LookupResult Value) (a : Option Adapter) (i : ValidatedIndicator)
        (key : Option Text) (cut : Option (S → S)) (w w' : World Value S) (c : ℕ) (joined : Bool)
        → Reachable n w.service
        → start_lookup store a i key cut w ≡ (w', waiting c joined)
        → is_some ((finish results w'.service.tasks w'.service).channels c) ≡ true
    start_lookup-told n results a i key cut w w' c joined h e =
        entered-told n results w' c joined
          (subst (IsEntered n) e (start_lookup-IsEntered n a i key cut w h))
