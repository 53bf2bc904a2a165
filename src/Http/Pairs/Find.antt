-- ===== src/Http/Pairs/Find.antt =====
-- The plan of src/http.rs finds an identity again at the position where it was put.
use rust_enrich.Common.{
  ℕ, zero, suc, ◌≡◌, refl, ap, sym, true, Option, none, some, List, [], ◌∷◌, ◌++◌, length,
  get_elem?, Bool-cases, inl, inr, ◌⊎◌, arith, some-inj,
}
use rust_enrich.Common.Text.{Text, text_eq, text_eq_sound}
use rust_enrich.Domain.Types.{ProviderId, IndicatorKind, HashAlgorithm}
use rust_enrich.Http.Pairs.{Identity, provider_eq, kind_eq, algorithm_eq, identity_eq, position_of}

provider_eq_sound : (a b : ProviderId) → provider_eq a b ≡ true → a ≡ b
provider_eq_sound a b h = ground arith

kind_eq_sound : (a b : IndicatorKind) → kind_eq a b ≡ true → a ≡ b
kind_eq_sound a b h = ground arith

algorithm_eq_sound : (a b : Option HashAlgorithm) → algorithm_eq a b ≡ true → a ≡ b
algorithm_eq_sound a b h = ground arith

pub identity_eq_sound : (a b : Identity) → identity_eq a b ≡ true → a ≡ b
unfolding identity_eq
identity_eq_sound a b h = ground (
  arith,
  provider_eq_sound a.provider b.provider,
  kind_eq_sound a.kind b.kind,
  algorithm_eq_sound a.hash_algorithm b.hash_algorithm,
  text_eq_sound a.lookup_value b.lookup_value,
)

text_eq_refl : (s : Text) → text_eq s s ≡ true
text_eq_refl [] = refl
text_eq_refl (c ∷ s) = ground (arith, text_eq_refl s)

identity_eq_refl : (a : Identity) → identity_eq a a ≡ true
unfolding identity_eq
identity_eq_refl a = ground (arith, text_eq_refl a.lookup_value)

module _ {ℓ} {A : Type ℓ} where
  pub get-append :
      (xs ys : List A) (n : ℕ) (x : A) → get_elem? xs n ≡ some x → get_elem? (xs ++ ys) n ≡ some x
  get-append [] ys n x h = cc
  get-append (y ∷ xs) ys zero x h = h
  get-append (y ∷ xs) ys (suc n) x h = get-append xs ys n x h

  pub get-end : (xs : List A) (x : A) → get_elem? (xs ++ x ∷ []) (length xs) ≡ some x
  get-end [] x = refl
  get-end (y ∷ xs) x = get-end xs x

  pub get-snoc :
      (xs : List A) (y : A) (n : ℕ) (x : A)
      → get_elem? (xs ++ y ∷ []) n ≡ some x
      → (get_elem? xs n ≡ some x) ⊎ ((n ≡ length xs) × (x ≡ y))
  get-snoc [] y zero x h = inr (refl, sym (some-inj h))
  get-snoc [] y (suc n) x h = cc
  get-snoc (z ∷ xs) y zero x h = inl h
  get-snoc (z ∷ xs) y (suc n) x h = elim (get-snoc xs y n x h) [
    | inl e ↦ inl e
    | inr e ↦ inr (ap suc e.0, e.1)
  ]

pub position_of-left :
    (a : Identity) (us vs : List (Identity × ℕ)) (n : ℕ)
    → position_of a us ≡ some n
    → position_of a (us ++ vs) ≡ some n
unfolding position_of
position_of-left a [] vs n h = cc
position_of-left a ((b, m) ∷ us) vs n h = ground (arith, position_of-left a us vs n)

pub position_of-end :
    (a : Identity) (us : List (Identity × ℕ)) (m : ℕ)
    → position_of a us ≡ none
    → position_of a (us ++ (a, m) ∷ []) ≡ some m
unfolding position_of
position_of-end a [] m h = ground (arith, identity_eq_refl a)
position_of-end a ((b, k) ∷ us) m h = ground (arith, position_of-end a us m)

pub position_of-snoc :
    (a b : Identity) (us : List (Identity × ℕ)) (m n : ℕ)
    → position_of a (us ++ (b, m) ∷ []) ≡ some n
    → (position_of a us ≡ some n) ⊎ ((a ≡ b) × (n ≡ m))
unfolding position_of
position_of-snoc a b [] m n h = inr (ground (arith, identity_eq_sound a b), ground arith)
position_of-snoc a b ((c, k) ∷ us) m n h = elim (Bool-cases (identity_eq a c)) [
  | inl e ↦ inl (rw (e) (ground (arith, e)))
  | inr e ↦ rw (e) (position_of-snoc a b us m n (ground (arith, e)))
]
