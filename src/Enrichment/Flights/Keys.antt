-- ===== src/Enrichment/Flights/Keys.antt =====
-- The keys and channels of the flights in src/enrichment.rs.
use rust_enrich.Common.{
  ℕ, ◌<◌, ◌≤◌, ◌≡◌, refl, ◌≢◌, Bool, true, false, not, List, [], ◌∷◌, ◌==◌, keep, any,
  if◌then◌else◌, arith, subst, sym, ap, ◌∙◌, Bool-cases, inl, inr, none, some,
}
use mathlib.Core.Bool.{true≢false}
use rust_enrich.Common.Text.{Text, text_eq, text_eq_sound}
use rust_enrich.Domain.Types.{abuseipdb, virustotal}
use rust_enrich.Enrichment.Flights.{FlightKey, key_eq, Flight, flight_of, is_flight}

text_eq_refl : (s : Text) → text_eq s s ≡ true
text_eq_refl [] = refl
text_eq_refl (c ∷ s) = ground (arith, text_eq_refl s)

pub key_eq_refl : (k : FlightKey) → key_eq k k ≡ true
unfolding key_eq
key_eq_refl (abuseipdb, s) = text_eq_refl s
key_eq_refl (virustotal, s) = text_eq_refl s

pub key_eq_sound : (k l : FlightKey) → key_eq k l ≡ true → k ≡ l
unfolding key_eq
key_eq_sound (abuseipdb, s) (abuseipdb, t) h = ap (λ u. (abuseipdb, u)) (text_eq_sound s t h)
key_eq_sound (abuseipdb, s) (virustotal, t) h = cc
key_eq_sound (virustotal, s) (abuseipdb, t) h = cc
key_eq_sound (virustotal, s) (virustotal, t) h = ap (λ u. (virustotal, u)) (text_eq_sound s t h)

-- No flight of the list has the key.
abbrev pub has_key : FlightKey → List Flight → Bool
has_key k flights = any (λ f. key_eq k f.0) flights

-- The channels are below the bound, in the reverse of their order, and no key is there twice.
unfoldable pub Distinct : ℕ → List Flight → Type 0
Distinct n [] = Unit
Distinct n ((k, c) ∷ flights) = (c < n) × (has_key k flights ≡ false) × Distinct c flights

pub Distinct-mono : {m n : ℕ} (fs : List Flight) → m ≤ n → Distinct m fs → Distinct n fs
unfolding Distinct
Distinct-mono [] h d = tt
Distinct-mono ((k, c) ∷ fs) h (b, u, d) = (omega arith, u, d)

pub is_flight-below :
    (n : ℕ) (k : FlightKey) (c : ℕ) (fs : List Flight)
    → Distinct n fs
    → is_flight k c fs ≡ true
    → c < n
unfolding Distinct is_flight
is_flight-below n k c [] d h = cc
is_flight-below n k c ((l, e) ∷ fs) (b, u, d) h = elim (Bool-cases (is_flight k c fs)) [
  | inl there ↦ omega (arith, is_flight-below e k c fs d there)
  | inr nowhere ↦ ground arith
]

pub is_flight-has_key :
    (k : FlightKey) (c : ℕ) (fs : List Flight) → is_flight k c fs ≡ true → has_key k fs ≡ true
unfolding is_flight
is_flight-has_key k c [] h = h
is_flight-has_key k c ((l, e) ∷ fs) h = ground (arith, is_flight-has_key k c fs)

pub flight_of-some :
    (k : FlightKey) (c : ℕ) (fs : List Flight) → flight_of k fs ≡ some c → is_flight k c fs ≡ true
unfolding flight_of is_flight
flight_of-some k c [] h = cc
flight_of-some k c ((l, e) ∷ fs) h = ground (arith, flight_of-some k c fs)

pub flight_of-none :
    (k : FlightKey) (fs : List Flight) → flight_of k fs ≡ none → has_key k fs ≡ false
unfolding flight_of
flight_of-none k [] h = refl
flight_of-none k ((l, e) ∷ fs) h = ground (arith, flight_of-none k fs)

pub keep-has_key :
    (k l : FlightKey) (fs : List Flight)
    → has_key l fs ≡ false
    → has_key l (keep (λ f. not (key_eq k f.0)) fs) ≡ false
keep-has_key k l [] h = refl
keep-has_key k l ((m, e) ∷ fs) h = ground (arith, keep-has_key k l fs)

Distinct-if :
    (n : ℕ) (test : Bool) (l : FlightKey) (e : ℕ) (fs : List Flight)
    → e < n
    → has_key l fs ≡ false
    → Distinct e fs
    → Distinct n (if test then (l, e) ∷ fs else fs)
unfolding Distinct
Distinct-if n true l e fs b u d = (b, u, d)
Distinct-if n false l e fs b u d = Distinct-mono fs (omega (arith, b)) d

pub Distinct-keep :
    (n : ℕ) (k : FlightKey) (fs : List Flight)
    → Distinct n fs
    → Distinct n (keep (λ f. not (key_eq k f.0)) fs)
unfolding Distinct
Distinct-keep n k [] d = tt
Distinct-keep n k ((l, e) ∷ fs) (b, u, d) =
    let kept = Distinct-keep e k fs d in
    Distinct-if n (not (key_eq k l)) l e (keep (λ f. not (key_eq k f.0)) fs) b
      (keep-has_key k l fs u) kept

keep-all_keys :
    (k : FlightKey) (fs : List Flight)
    → has_key k fs ≡ false
    → keep (λ f. not (key_eq k f.0)) fs ≡ fs
keep-all_keys k [] h = refl
keep-all_keys k ((l, e) ∷ fs) h = ground (arith, keep-all_keys k fs)

pub keep-all_channels :
    (n c : ℕ) (fs : List Flight) → Distinct n fs → n ≤ c → keep (λ f. not (f.1 == c)) fs ≡ fs
unfolding Distinct
keep-all_channels n c [] d h = refl
keep-all_channels n c ((l, e) ∷ fs) (b, u, d) h =
    ground (arith, keep-all_channels e c fs d (omega arith))

-- A key that the rest does not have is not that of a flight in the rest.
other_key :
    (k l : FlightKey) (c : ℕ) (fs : List Flight)
    → has_key l fs ≡ false
    → is_flight k c fs ≡ true
    → k ≢ l
other_key k l c fs u h e =
    true≢false (sym (is_flight-has_key k c fs h) ∙ ap (λ m. has_key m fs) e ∙ u)

key_eq-false : (k l : FlightKey) → k ≢ l → key_eq k l ≡ false
key_eq-false k l h = elim (Bool-cases (key_eq k l)) [
  | inl same ↦ absurd (h (key_eq_sound k l same))
  | inr other ↦ other
]

at_head :
    (k l : FlightKey) (c e : ℕ) (fs : List Flight)
    → is_flight k c ((l, e) ∷ fs) ≡ true
    → is_flight k c fs ≡ false
    → (k ≡ l) × (e ≡ c)
unfolding is_flight
at_head k l c e fs h away = (key_eq_sound k l (ground arith), ground arith)

keep_agree-there :
    (k l : FlightKey) (c e : ℕ) (xs ys : List Flight)
    → key_eq k l ≡ false
    → c < e
    → xs ≡ ys
    → (if not (key_eq k l) then (l, e) ∷ xs else xs) ≡ (if not (e == c) then (l, e) ∷ ys else ys)
keep_agree-there k l c e xs ys h b q = ground arith

keep_agree-head :
    (k l : FlightKey) (c e : ℕ) (xs ys : List Flight)
    → key_eq k l ≡ true
    → e ≡ c
    → xs ≡ ys
    → (if not (key_eq k l) then (l, e) ∷ xs else xs) ≡ (if not (e == c) then (l, e) ∷ ys else ys)
keep_agree-head k l c e xs ys h b q = ground arith

key_eq-true : (k l : FlightKey) → k ≡ l → key_eq k l ≡ true
key_eq-true k l e = subst (λ m. key_eq k m ≡ true) e (key_eq_refl k)

-- The flight of a task is gone from the table and from the tasks alike.
pub keep_agree :
    (n : ℕ) (k : FlightKey) (c : ℕ) (fs : List Flight)
    → Distinct n fs
    → is_flight k c fs ≡ true
    → keep (λ f. not (key_eq k f.0)) fs ≡ keep (λ f. not (f.1 == c)) fs
unfolding Distinct
keep_agree n k c [] d h = refl
keep_agree n k c ((l, e) ∷ fs) (b, u, d) h = elim (Bool-cases (is_flight k c fs)) [
  | inl there ↦
      keep_agree-there k l c e _ _ (key_eq-false k l (other_key k l c fs u there))
        (is_flight-below e k c fs d there) (keep_agree e k c fs d there)
  | inr away ↦
      let (same, here) = at_head k l c e fs h away in
      keep_agree-head k l c e _ _ (key_eq-true k l same) here (
        keep-all_keys k fs (ap (λ m. has_key m fs) same ∙ u)
        ∙ sym (keep-all_channels e c fs d (omega (arith, here))))
]

bool_agree-false : (b : Bool) (c e : ℕ) → b ≡ false → e ≢ c → b ≡ (e == c)
bool_agree-false b c e h d = ground arith

bool_agree-true : (b : Bool) (c e : ℕ) → b ≡ true → e ≡ c → b ≡ (e == c)
bool_agree-true b c e h d = ground arith

-- Of two flights of the list, the keys agree exactly if the channels do.
pub flight_agree :
    (n : ℕ) (k l : FlightKey) (c e : ℕ) (fs : List Flight)
    → Distinct n fs
    → is_flight k c fs ≡ true
    → is_flight l e fs ≡ true
    → key_eq k l ≡ (e == c)
unfolding Distinct is_flight
flight_agree n k l c e [] d h h' = cc
flight_agree n k l c e ((m, f) ∷ fs) (b, u, d) h h' = elim (Bool-cases (is_flight k c fs)) [
  | inl there ↦ elim (Bool-cases (is_flight l e fs)) [
    | inl there' ↦ flight_agree f k l c e fs d there there'
    | inr away' ↦
        let (same, here) = at_head l m e f fs h' away' in
        bool_agree-false (key_eq k l) c e
          (key_eq-false k l (λ q. other_key k m c fs u there (q ∙ same)))
          (omega (arith, here, is_flight-below f k c fs d there))
  ]
  | inr away ↦
      let (same, here) = at_head k m c f fs h away in
      elim (Bool-cases (is_flight l e fs)) [
        | inl there' ↦
            bool_agree-false (key_eq k l) c e
              (key_eq-false k l (λ q. other_key l m e fs u there' (sym q ∙ same)))
              (omega (arith, here, is_flight-below f l e fs d there'))
        | inr away' ↦
            let (same', here') = at_head l m e f fs h' away' in
            bool_agree-true (key_eq k l) c e (key_eq-true k l (same ∙ sym same')) (sym here' ∙ here)
      ]
]
