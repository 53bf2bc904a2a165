-- ===== src/Http/Pairs/Expand.antt =====
-- The plan of src/http.rs gives every position of the response the lookup of its own pair.
use rust_enrich.Common.{
  ℕ, zero, suc, ◌≡◌, refl, ap, sym, ◌∙◌, subst, Option, none, some, List, [], ◌∷◌, ◌++◌, length,
  get_elem?, map, inl, inr, some-inj,
}
use rust_enrich.Domain.Types.{ProviderId}
use rust_enrich.Domain.Indicator.{ValidatedIndicator}
use rust_enrich.Http.Pairs.Find.{
  get-append, get-end, get-snoc, position_of-left, position_of-end, position_of-snoc,
}
use rust_enrich.Http.Pairs.{
  Pair, Identity, identity, Plan, no_plan, position_of, take_pair, add_pair, add_providers,
  add_indicators, plan, spread,
}

-- The pair at a position has the identity of the pair that is wanted there.
LedTo : List Pair → ℕ → Pair → Type 0
LedTo pairs n d = (q : Pair) × (get_elem? pairs n ≡ some q) × (identity q ≡ identity d)

data Covers (pairs : List Pair) : List ℕ → List Pair → Type 0 where
  nil : Covers pairs [] []
  cons :
      {n : ℕ} {d : Pair} {ns : List ℕ} {ds : List Pair}
      → LedTo pairs n d
      → Covers pairs ns ds
      → Covers pairs (n ∷ ns) (d ∷ ds)

LedTo-append :
    (pairs more : List Pair) (n : ℕ) (d : Pair) → LedTo pairs n d → LedTo (pairs ++ more) n d
unfolding LedTo
LedTo-append pairs more n d (q, g, e) = (q, get-append pairs more n q g, e)

Covers-append :
    {pairs : List Pair} {ns : List ℕ} {ds : List Pair} (more : List Pair)
    → Covers pairs ns ds
    → Covers (pairs ++ more) ns ds
Covers-append more nil = nil
Covers-append {pairs} more (cons {n} {d} l c) =
    cons (LedTo-append pairs more n d l) (Covers-append more c)

Covers-snoc :
    {pairs : List Pair} {ns : List ℕ} {ds : List Pair} (n : ℕ) (d : Pair)
    → LedTo pairs n d
    → Covers pairs ns ds
    → Covers pairs (ns ++ n ∷ []) (ds ++ d ∷ [])
Covers-snoc n d l nil = cons l nil
Covers-snoc n d l (cons m c) = cons m (Covers-snoc n d l c)

-- The state of the loops behind the pairs `done`.
record Planned (s : Plan) (done : List Pair) : Type 0 where
  leads :
      (a : Identity) (n : ℕ)
      → position_of a s.unique ≡ some n
      → (q : Pair) × (get_elem? s.pairs n ≡ some q) × (identity q ≡ a)
  listed :
      (n : ℕ) (q : Pair) → get_elem? s.pairs n ≡ some q → position_of (identity q) s.unique ≡ some n
  covers : Covers s.pairs s.positions done

take_pair-Planned :
    (s : Plan) (done : List Pair) (pair : Pair) (o : Option ℕ)
    → position_of (identity pair) s.unique ≡ o
    → Planned s done
    → Planned (take_pair s pair o) (done ++ pair ∷ [])
unfolding take_pair LedTo
take_pair-Planned s done pair (some n) e v = record {
  leads = v.leads;
  listed = v.listed;
  covers = Covers-snoc n pair (v.leads (identity pair) n e) v.covers;
}
take_pair-Planned s done pair none e v = record {
  leads = λ a n h. elim (position_of-snoc a (identity pair) s.unique (length s.pairs) n h) [
    | inl old ↦
        let (q, g, same) = v.leads a n old in (q, get-append s.pairs (pair ∷ []) n q g, same)
    | inr new ↦ (
      pair,
      subst (λ k. get_elem? (s.pairs ++ pair ∷ []) k ≡ some pair) (sym new.1)
          (get-end s.pairs pair),
      sym new.0,
    )
  ];
  listed = λ n q h. elim (get-snoc s.pairs pair n q h) [
    | inl old ↦
        position_of-left (identity q) s.unique ((identity pair, length s.pairs) ∷ []) n
          (v.listed n q old)
    | inr new ↦
        subst
          (λ (r : Pair).
            position_of (identity r) (s.unique ++ (identity pair, length s.pairs) ∷ []) ≡ some n)
          (sym new.1)
          (position_of-end (identity pair) s.unique (length s.pairs) e ∙ ap some (sym new.0))
  ];
  covers =
      Covers-snoc (length s.pairs) pair (pair, get-end s.pairs pair, refl)
        (Covers-append (pair ∷ []) v.covers);
}

-- The pairs in the order of the response.
abbrev pub row : ValidatedIndicator → List ProviderId → List Pair
row i [] = []
row i (provider ∷ rest) = (provider, i) ∷ row i rest

abbrev pub all_pairs : List ValidatedIndicator → List ProviderId → List Pair
all_pairs [] providers = []
all_pairs (i ∷ rest) providers = row i providers ++ all_pairs rest providers

append_assoc : {A : Type 0} (xs ys zs : List A) → (xs ++ ys) ++ zs ≡ xs ++ (ys ++ zs)
append_assoc [] ys zs = refl
append_assoc (x ∷ xs) ys zs = ap (λ l. x ∷ l) (append_assoc xs ys zs)

append_nil : {A : Type 0} (xs : List A) → xs ++ [] ≡ xs
append_nil [] = refl
append_nil (x ∷ xs) = ap (λ l. x ∷ l) (append_nil xs)

add_providers-Planned :
    (s : Plan) (done : List Pair) (i : ValidatedIndicator) (providers : List ProviderId)
    → Planned s done
    → Planned (add_providers s i providers) (done ++ row i providers)
unfolding add_providers add_pair
add_providers-Planned s done i [] v = subst (Planned s) (sym (append_nil done)) v
add_providers-Planned s done i (provider ∷ rest) v =
    subst (Planned (add_providers (add_pair s (provider, i)) i rest))
      (append_assoc done ((provider, i) ∷ []) (row i rest))
      (add_providers-Planned (add_pair s (provider, i)) (done ++ (provider, i) ∷ []) i rest (
        take_pair-Planned s done (provider, i) (position_of (identity (provider, i)) s.unique) refl
          v))

add_indicators-Planned :
    (s : Plan) (done : List Pair) (providers : List ProviderId)
    (indicators : List ValidatedIndicator)
    → Planned s done
    → Planned (add_indicators s providers indicators) (done ++ all_pairs indicators providers)
unfolding add_indicators
add_indicators-Planned s done providers [] v = subst (Planned s) (sym (append_nil done)) v
add_indicators-Planned s done providers (i ∷ rest) v =
    subst (Planned (add_indicators (add_providers s i providers) providers rest))
      (append_assoc done (row i providers) (all_pairs rest providers))
      (add_indicators-Planned (add_providers s i providers) (done ++ row i providers) providers rest
        (add_providers-Planned s done i providers v))

plan-Planned :
    (indicators : List ValidatedIndicator) (providers : List ProviderId)
    → Planned (plan indicators providers) (all_pairs indicators providers)
unfolding plan position_of
plan-Planned indicators providers =
    add_indicators-Planned no_plan [] providers indicators
      (record { leads = λ a n h. cc; listed = λ n q h. cc; covers = nil })

-- No two of the pairs that are looked up have the same identity.
pub plan_distinct :
    (indicators : List ValidatedIndicator) (providers : List ProviderId) (m n : ℕ) (p q : Pair)
    → get_elem? (plan indicators providers).pairs m ≡ some p
    → get_elem? (plan indicators providers).pairs n ≡ some q
    → identity p ≡ identity q
    → m ≡ n
plan_distinct indicators providers m n p q a b e =
    let v = plan-Planned indicators providers in
    some-inj (
      sym (v.listed m p a)
      ∙ ap (λ (x : Identity). position_of x (plan indicators providers).unique) e
      ∙ v.listed n q b)

get-map :
    {A B : Type 0} (f : A → B) (xs : List A) (n : ℕ) (x : A)
    → get_elem? xs n ≡ some x
    → get_elem? (map f xs) n ≡ some (f x)
get-map f [] n x h = cc
get-map f (y ∷ xs) zero x h = ap some (ap f (some-inj h))
get-map f (y ∷ xs) (suc n) x h = get-map f xs n x h

spread-cons :
    {R : Type 0} (f : Pair → R) (failed : R)
    → ((p q : Pair) → identity p ≡ identity q → f p ≡ f q)
    → (pairs : List Pair) (n : ℕ) (d : Pair) (ns : List ℕ) (ds : List Pair) → LedTo pairs n d
    → spread failed (map f pairs) ns ≡ map f ds
    → spread failed (map f pairs) (n ∷ ns) ≡ map f (d ∷ ds)
unfolding spread LedTo
spread-cons f failed same pairs n d ns ds (q, g, e) rest =
    rw (get-map f pairs n q g, rest, same q d e) refl

spread-Covers :
    {R : Type 0} (f : Pair → R) (failed : R)
    → ((p q : Pair) → identity p ≡ identity q → f p ≡ f q)
    → {pairs : List Pair} {ns : List ℕ} {ds : List Pair} → Covers pairs ns ds
    → spread failed (map f pairs) ns ≡ map f ds
unfolding spread
spread-Covers f failed same nil = refl
spread-Covers f failed same {pairs} (cons {n} {d} {ns} {ds} l c) =
    spread-cons f failed same pairs n d ns ds l (spread-Covers f failed same c)

-- The results of the response are those of looking up every pair by itself, in the order of indicators
-- and providers, for any lookup that depends on a pair's identity only.
pub plan_lem :
    {R : Type 0} (f : Pair → R) (failed : R) (indicators : List ValidatedIndicator)
    (providers : List ProviderId)
    → ((p q : Pair) → identity p ≡ identity q → f p ≡ f q)
    → spread failed (map f (plan indicators providers).pairs) (plan indicators providers).positions
      ≡ map f (all_pairs indicators providers)
plan_lem f failed indicators providers same =
    spread-Covers f failed same (plan-Planned indicators providers).covers
