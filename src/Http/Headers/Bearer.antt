-- ===== src/Http/Headers/Bearer.antt =====
-- Who `authorized` of src/http.rs lets in.
use rust_enrich.Common.{
  ℕ, ◌≡◌, refl, true, not, ◌&&◌, Option, none, some, List, [], ◌∷◌, ◌++◌, is_some, arith, ap,
}
use rust_enrich.Common.Text.{codes, text_eq, text_eq_sound}
use rust_enrich.Http.Headers.{
  Headers, HeaderTools, strip_prefix, authorized, strip_bearer, first, repeated, or_empty,
}

-- There is one value of the header, it is "Bearer " and a credential, and the credential has the digest.
unfoldable pub IsBearer : HeaderTools → List ℕ → List (List ℕ) → Type 0
IsBearer t token_digest values =
    (credential : List ℕ) × (values ≡ (codes "Bearer " ++ credential) ∷ [])
    × (t.digest credential ≡ token_digest)

strip_prefix-append :
    (prefix value rest : List ℕ) → strip_prefix prefix value ≡ some rest → value ≡ prefix ++ rest
unfolding strip_prefix
strip_prefix-append [] value rest h = cc
strip_prefix-append (c ∷ prefix) [] rest h = cc
strip_prefix-append (c ∷ prefix) (d ∷ value) rest h =
    ground (arith, strip_prefix-append prefix value rest)

IsBearer-value :
    (t : HeaderTools) (token_digest value : List ℕ) (credential : Option (List ℕ))
    → strip_prefix (codes "Bearer ") value ≡ credential
    → (text_eq (t.digest (or_empty credential)) token_digest && is_some credential) ≡ true
    → IsBearer t token_digest (value ∷ [])
unfolding IsBearer
IsBearer-value t token_digest value none e h = ground arith
IsBearer-value t token_digest value (some c) e h = (
  c,
  ap (λ v. v ∷ []) (strip_prefix-append (codes "Bearer ") value c e),
  text_eq_sound (t.digest c) token_digest (ground arith),
)

-- A request is authorized only with a single Authorization header that is "Bearer " and a credential whose digest is the
-- service token's.
pub authorized-IsBearer :
    (t : HeaderTools) (token_digest : List ℕ) (h : Headers)
    → authorized t token_digest h ≡ true
    → IsBearer t token_digest h.authorization
unfolding authorized
authorized-IsBearer t token_digest h e = one h.authorization e
  where
    one :
        (values : List (List ℕ))
        → (not (repeated values)
            && (text_eq (t.digest (or_empty (strip_bearer (first values)))) token_digest
                && is_some (strip_bearer (first values))))
          ≡ true
        → IsBearer t token_digest values
    one [] e = ground arith
    one (value ∷ []) e =
        IsBearer-value t token_digest value (strip_prefix (codes "Bearer ") value) refl e
    one (value ∷ other ∷ values) e = ground arith
