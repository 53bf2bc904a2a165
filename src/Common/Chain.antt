-- ===== src/Common/Chain.antt =====
-- `Result<A, E>`; the rest of a chain runs on `ok`, and the first error ends it, as `?` does.
use mathlib.Core.Option.{Option, none, some}
use mathlib.Core.Bool.{Bool, true, false}
use mathlib.Core.Path.{◌≡◌, refl}

pub data Result {ℓ} (E A : Type ℓ) : Type ℓ where
  ok : A → Result E A
  err : E → Result E A

infixl 5 ◌>>=◌ ◌>>◌
abbrev pub ◌>>=◌ {ℓ} : {E A B : Type ℓ} → Result E A → (A → Result E B) → Result E B
ok a >>= f = f a
err e >>= f = err e

abbrev pub ◌>>◌ {ℓ} : {E A B : Type ℓ} → Result E A → Result E B → Result E B
m >> k = m >>= λ _. k

-- `Option::ok_or`
abbrev pub ok_or {ℓ} : {E A : Type ℓ} → Option A → E → Result E A
ok_or none e = err e
ok_or (some a) e = ok a

-- `return Err(e)` unless the test passes
abbrev pub ensure {ℓ} : {E : Type ℓ} → Bool → E → Result E (Unit {ℓ})
ensure true e = ok tt
ensure false e = err e

abbrev pub is_ok {ℓ} : {E A : Type ℓ} → Result E A → Bool
is_ok (ok a) = true
is_ok (err e) = false

-- A chain that succeeds has a first step that does.
pub bind-eq-ok {ℓ} :
    {E A B : Type ℓ} (m : Result E A) (f : A → Result E B) {b : B}
    → (m >>= f) ≡ ok b
    → (a : A) × (m ≡ ok a) × (f a ≡ ok b)
bind-eq-ok (ok a) f h = (a, refl, h)
bind-eq-ok (err e) f h = cc

pub ok-inj {ℓ} : {E A : Type ℓ} {a b : A} → Path (Result E A) (ok a) (ok b) → a ≡ b
ok-inj e = cc

-- A test that is passed is true, and a value that is taken is there.
pub ensure-ok {ℓ} : {E : Type ℓ} (b : Bool) (e : E) {u : Unit {ℓ}} → ensure b e ≡ ok u → b ≡ true
ensure-ok true e h = refl
ensure-ok false e h = cc

pub ok_or-ok {ℓ} : {A E : Type ℓ} (o : Option A) (e : E) {a : A} → ok_or o e ≡ ok a → o ≡ some a
ok_or-ok none e h = cc
ok_or-ok (some x) e h = cc
