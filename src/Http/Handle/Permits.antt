-- ===== src/Http/Handle/Permits.antt =====
-- The permits of the two semaphores in src/http.rs.
use rust_enrich.Common.{
  ℕ, ◌+◌, ◌-◌, ◌≡◌, refl, Bool, true, false, not, ◌&&◌, ◌||◌, Option, none, some, ◌==◌,
  if◌then◌else◌, is_none, is_some, arith,
}
use rust_enrich.Common.Text.{Text, codes, text_eq}
use rust_enrich.Http.Headers.{authorized}
use rust_enrich.Http.Respond.{Response}
use rust_enrich.Http.Handle.{
  Method, get, post, other, Request, Permit, of_admission, of_health, HttpState, Connection, Turn,
  HttpTools, Handled, plain, attach_permit, close_deadline, attach_pair, enrich, health,
  route_request, handle, is_get, is_post,
}

abbrev pub same_permit : Permit → Permit → Bool
same_permit of_admission of_admission = true
same_permit of_health of_health = true
same_permit _ _ = false

abbrev pub count : Permit → Option Permit → ℕ
count p none = 0
count p (some q) = if same_permit p q then 1 else 0

abbrev pub permit_of : Option Connection → Option Permit
permit_of none = none
permit_of (some c) = c.permit

-- The permits that a request still holds when it is answered.
unfoldable pub held : Permit → Handled → ℕ
held p h = count p (permit_of h.connection) + count p h.body_permit

abbrev pub same_method : Method → Method → Bool
same_method get get = true
same_method post post = true
same_method _ _ = false

is_post-same_method :
    {Value : Type 0} (t : HttpTools Value) (m : Method) → is_post t m ≡ same_method post m
is_post-same_method t get = refl
is_post-same_method t post = refl
is_post-same_method t other = refl

is_get-same_method :
    {Value : Type 0} (t : HttpTools Value) (m : Method) → is_get t m ≡ same_method get m
is_get-same_method t get = refl
is_get-same_method t post = refl
is_get-same_method t other = refl

-- A request that is let in: to the lookups, for the permit of admission, or to a health check, for its own.
abbrev pub is_let_in :
    {Value : Type 0} → HttpTools Value → Permit → Turn Value → Request → HttpState → Bool
is_let_in t of_admission turn r s =
    text_eq r.path (codes "/v1/enrich")
    && same_method post r.method
    && authorized t.headers s.token_digest r.headers
    && not turn.stopping
    && turn.healthy
    && not (s.admission == 0)
is_let_in t of_health turn r s =
    (text_eq r.path (codes "/health/live") || text_eq r.path (codes "/health/ready"))
    && not (text_eq r.path (codes "/v1/enrich"))
    && same_method get r.method
    && not (s.health_admission == 0)

abbrev pub one_if : Bool → ℕ
one_if b = if b then 1 else 0

-- Free and held permits together are those that were free before; what is held, by kind; and where.
unfoldable pub IsHolding : HttpState → Bool → Bool → Handled → Type 0
IsHolding s admitted checked h =
    (h.state.admission + held of_admission h ≡ s.admission)
    × (h.state.health_admission + held of_health h ≡ s.health_admission)
    × (held of_admission h ≡ one_if admitted)
    × (held of_health h ≡ one_if checked)
    × ((is_some h.connection && is_some h.body_permit) ≡ false)

plain-IsHolding :
    (s : HttpState) (a b : Bool) (c : Option Connection) (r : Response)
    → is_none (permit_of c) ≡ true
    → a ≡ false
    → b ≡ false
    → IsHolding s a b (plain s c r)
unfolding IsHolding held
plain-IsHolding s a b none r h i j = (ground arith, ground arith, rw i refl, rw j refl, refl)
plain-IsHolding s a b (some c) r h i j =
    (ground arith, ground arith, ground arith, ground arith, ground arith)

attach-IsHolding :
    (s : HttpState) (a b : Bool) (c : Option Connection) (r : Response)
    → (s.admission == 0) ≡ false
    → a ≡ true
    → b ≡ false
    → IsHolding s a b (attach_permit (record s { admission = s.admission - 1 }) c of_admission r)
unfolding IsHolding held attach_permit
attach-IsHolding s a b none r h i j = (ground arith, ground arith, ground arith, ground arith, refl)
attach-IsHolding s a b (some c) r h i j =
    (ground arith, ground arith, ground arith, ground arith, refl)

attach_health-IsHolding :
    (s : HttpState) (a b : Bool) (c : Option Connection) (r : Response)
    → (s.health_admission == 0) ≡ false
    → a ≡ false
    → b ≡ true
    → IsHolding s a b
        (attach_permit (record s { health_admission = s.health_admission - 1 }) c of_health r)
unfolding IsHolding held attach_permit
attach_health-IsHolding s a b none r h i j =
    (ground arith, ground arith, ground arith, ground arith, refl)
attach_health-IsHolding s a b (some c) r h i j =
    (ground arith, ground arith, ground arith, ground arith, refl)

if-IsHolding :
    (s : HttpState) (a b test : Bool) (x y : Handled)
    → (test ≡ true → IsHolding s a b x)
    → (test ≡ false → IsHolding s a b y)
    → IsHolding s a b (if test then x else y)
if-IsHolding s a b true x y h k = h refl
if-IsHolding s a b false x y h k = k refl

module _ {Value : Type 0} (t : HttpTools Value) where
  enrich-IsHolding :
      (a b : Bool) (id : Text) (turn : Turn Value) (r : Request) (c : Option Connection)
      (s : HttpState)
      → is_none (permit_of c) ≡ true
      → a ≡ (not turn.stopping && turn.healthy && not (s.admission == 0))
      → b ≡ false
      → IsHolding s a b (enrich t id turn r c s)
  unfolding enrich
  enrich-IsHolding a b id turn r c s h i j =
      if-IsHolding s a b (turn.stopping || not turn.healthy) _ _
        (λ down. plain-IsHolding s a b c _ h (ground arith) j)
        (λ up.
          if-IsHolding s a b (s.admission == 0) _ _
            (λ full. plain-IsHolding s a b c _ h (ground arith) j)
            (λ room. attached _ room (ground arith)))
    where
      attached :
          (pair : Option Connection × Response)
          → (s.admission == 0) ≡ false
          → a ≡ true
          → IsHolding s a b
              (attach_pair t (record s { admission = s.admission - 1 }) of_admission pair)
      attached (d, response) room taken = attach-IsHolding s a b d response room taken j

  health-IsHolding :
      (a b : Bool) (id : Text) (turn : Turn Value) (ready : Bool) (c : Option Connection)
      (s : HttpState)
      → is_none (permit_of c) ≡ true
      → a ≡ false
      → b ≡ not (s.health_admission == 0)
      → IsHolding s a b (health t id turn ready c s)
  unfolding health
  health-IsHolding a b id turn ready c s h i j =
      if-IsHolding s a b (s.health_admission == 0) _ _
        (λ full. plain-IsHolding s a b c _ h i (ground arith))
        (λ room. attach_health-IsHolding s a b c _ room i (ground arith))

  module _ (a b : Bool) (id : Text) (turn : Turn Value) (r : Request) (c : Option Connection)
      (s : HttpState) (empty_handed : is_none (permit_of c) ≡ true)
      (admitted : a ≡ is_let_in t of_admission turn r s)
      (checked : b ≡ is_let_in t of_health turn r s) where
    enrich_route-IsHolding :
        (response denied : Response)
        → text_eq r.path (codes "/v1/enrich") ≡ true
        → IsHolding s a b (
            if is_post t r.method
            then (if authorized t.headers s.token_digest r.headers
                then enrich t id turn r c s
                else plain s c denied)
            else plain s c response)
    enrich_route-IsHolding response denied path =
        if-IsHolding s a b (is_post t r.method) _ _
          (λ posted.
            if-IsHolding s a b (authorized t.headers s.token_digest r.headers) _ _
              (λ allowed.
                enrich-IsHolding a b id turn r c s empty_handed
                  (ground (arith, is_post-same_method t r.method)) (ground arith))
              (λ refused. plain-IsHolding s a b c _ empty_handed (ground arith) (ground arith)))
          (λ wrong.
            plain-IsHolding s a b c _ empty_handed (ground (arith, is_post-same_method t r.method))
              (ground arith))

    route_request-IsHolding : IsHolding s a b (route_request t id turn r c s)
    unfolding route_request
    route_request-IsHolding =
        if-IsHolding s a b (text_eq r.path (codes "/v1/enrich")) _ _ (enrich_route-IsHolding _ _)
          (λ elsewhere.
            if-IsHolding s a b
              (text_eq r.path (codes "/health/live") || text_eq r.path (codes "/health/ready")) _ _
              (λ path.
                if-IsHolding s a b (is_get t r.method) _ _
                  (λ got.
                    health-IsHolding a b id turn _ c s empty_handed (ground arith)
                      (ground (arith, is_get-same_method t r.method)))
                  (λ wrong.
                    plain-IsHolding s a b c _ empty_handed (ground arith)
                      (ground (arith, is_get-same_method t r.method))))
              (λ nowhere. plain-IsHolding s a b c _ empty_handed (ground arith) (ground arith)))

  close-IsHolding :
      (s : HttpState) (a b : Bool) (h : Handled) (at : ℕ)
      → IsHolding s a b h
      → IsHolding s a b (record h { connection = close_deadline at h.connection })
  unfolding IsHolding held
  close-IsHolding s a b h at (i, j, k, l, m) =
      (ground arith, ground arith, ground arith, ground arith, ground arith)

  -- When a request is answered, exactly one permit of admission is held by its connection or by the body of its
  -- response, and not by both, if it was a POST to the lookups with the token, the service was up and a permit was
  -- free; exactly one of health is, if it was a GET of a health check and a permit was free; else none. Every other
  -- permit is free again. The connection held none before.
  pub handle-IsHolding :
      (id : Text) (turn : Turn Value) (r : Request) (c : Option Connection) (s : HttpState)
      → is_none (permit_of c) ≡ true
      → IsHolding s
          (is_let_in t of_admission turn r s)
          (is_let_in t of_health turn r s)
          (handle t id turn r c s)
  unfolding handle
  handle-IsHolding id turn r c s h =
      close-IsHolding s _ _ (route_request t id turn r c s) _
        (route_request-IsHolding _ _ id turn r c s h refl refl)
