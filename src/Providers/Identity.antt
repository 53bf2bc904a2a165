-- ===== src/Providers/Identity.antt =====
-- A report is accepted only for the indicator that was asked for: `decode_abuseipdb` and
-- `decode_virustotal` of src/providers.rs.
use rust_enrich.Common.{
  ◌≡◌, refl, ap, sym, ◌∙◌, Bool, true, false, not, ◌&&◌, Option, none, some, ok, ensure, ok_or,
  ◌>>=◌, ltb, is_some_and, bind-eq-ok, ensure-ok, ok_or-ok,
}
use rust_enrich.Common.Clock.{DateTime}
use rust_enrich.Common.Text.{Text, codes, text_eq, text_eq_sound, eq_ignore_ascii_case}
use rust_enrich.Domain.Types.{IndicatorKind, ip, url, hash, HashAlgorithm, md5, sha1, sha256}
use rust_enrich.Domain.Errors.{invalid_response}
use rust_enrich.Domain.Outcome.{Summary}
use rust_enrich.Domain.Indicator.{ValidatedIndicator}
use rust_enrich.Providers.Report.{AbuseData, VtData, Codec}
use rust_enrich.Providers.Adapter.{is_ip}
use rust_enrich.Providers.Abuseipdb.{same_address, decode_abuseipdb}
use rust_enrich.Providers.Virustotal.{
  requested_hash, check_object, check_file, valid_hash, decode_virustotal,
}

module _ {Value : Type 0} (k : Codec Value) where
  -- what `same_address` finds equal are two texts of one address
  same_address-ok :
      (a b : Text)
      → same_address k a b ≡ ok true
      → (x : Text) × (k.parse_ip a ≡ some x) × (k.parse_ip b ≡ some x)
  unfolding same_address
  same_address-ok a b h = one (k.parse_ip a) (k.parse_ip b) h
    where
      one :
          (p q : Option Text)
          → (ok_or p invalid_response >>= λ x. ok_or q invalid_response >>= λ y. ok (text_eq x y))
            ≡ ok true
          → (x : Text) × (p ≡ some x) × (q ≡ some x)
      one none q e = cc
      one (some x) none e = cc
      one (some x) (some y) e = (x, refl, ap some (sym (text_eq_sound x y (cc))))

and-true : (a b : Bool) → (a && b) ≡ true → (a ≡ true) × (b ≡ true)
and-true true true h = (refl, refl)
and-true true false h = cc
and-true false b h = cc

some_and :
    {A : Type 0} (o : Option A) (p : A → Bool)
    → is_some_and o p ≡ true
    → (a : A) × (o ≡ some a) × (p a ≡ true)
some_and none p h = cc
some_and (some a) p h = (a, refl, h)

is_ip-eq : (kind : IndicatorKind) → is_ip kind ≡ true → kind ≡ ip
is_ip-eq ip h = refl
is_ip-eq url h = cc
is_ip-eq hash h = cc

module _ {Value : Type 0} (k : Codec Value) where
  -- The report names the address that was looked up, and scores it by at most 100.
  unfoldable pub IsOwnAddress : Value → ValidatedIndicator → Type 0
  IsOwnAddress raw i =
      (i.input.kind ≡ ip)
      × (d : AbuseData) × (x : Text) × (k.read_abuse raw ≡ some d)
      × (k.parse_ip d.ip_address ≡ some x)
      × (k.parse_ip i.lookup_value ≡ some x)
      × (is_some_and d.abuse_confidence_score (ltb 100) ≡ false)

  -- The digest that a report names of itself, in the algorithm of the lookup.
  unfoldable pub IsOwnDigest : Option HashAlgorithm → VtData → Text → Type 0
  IsOwnDigest none d own = ⊥
  IsOwnDigest (some md5) d own = d.attributes.md5 ≡ some own
  IsOwnDigest (some sha1) d own = d.attributes.sha1 ≡ some own
  IsOwnDigest (some sha256) d own = own ≡ d.id

  requested_hash-IsOwnDigest :
      (algorithm : Option HashAlgorithm) (d : VtData) (own : Text)
      → requested_hash algorithm d ≡ some own
      → IsOwnDigest algorithm d own
  unfolding requested_hash IsOwnDigest
  requested_hash-IsOwnDigest none d own h = cc
  requested_hash-IsOwnDigest (some md5) d own h = h
  requested_hash-IsOwnDigest (some sha1) d own h = h
  requested_hash-IsOwnDigest (some sha256) d own h = cc

  -- The report is on a file, and its own digest is the one that was looked up.
  unfoldable pub IsOwnFile : Value → ValidatedIndicator → Type 0
  IsOwnFile raw i =
      (d : VtData) × (own : Text) × (k.read_virustotal raw ≡ some d)
      × (valid_hash d.id 64 ≡ true)
      × IsOwnDigest i.hash_algorithm d own
      × (eq_ignore_ascii_case own i.lookup_value ≡ true)

  -- AbuseIPDB's report is accepted only for an address, only if it names the address that was looked up,
  -- and only with a confidence score of at most 100.
  pub decode_abuseipdb-Identity :
      (raw : Value) (i : ValidatedIndicator) (r : Summary × Option DateTime)
      → decode_abuseipdb k raw i ≡ ok r
      → IsOwnAddress raw i
  unfolding decode_abuseipdb IsOwnAddress
  decode_abuseipdb-Identity raw i r h =
      let (u, a, h1) = bind-eq-ok (ensure (is_ip i.input.kind) invalid_response) _ h in
      let (d, b, h2) = bind-eq-ok (ok_or (k.read_abuse raw) invalid_response) _ h1 in
      let (same, c, h3) = bind-eq-ok (same_address k d.ip_address i.lookup_value) _ h2 in
      let (v, e, h4) =
        bind-eq-ok
          (ensure (same && not (is_some_and d.abuse_confidence_score (ltb 100))) invalid_response) _
          h3 in
      let (matched, low) = and-true same _ (ensure-ok _ invalid_response e) in
      let (x, p, q) = same_address-ok k d.ip_address i.lookup_value (c ∙ ap ok matched) in
      (
        is_ip-eq i.input.kind (ensure-ok _ invalid_response a),
        d,
        x,
        ok_or-ok (k.read_abuse raw) invalid_response b,
        p,
        q,
        not-true (is_some_and d.abuse_confidence_score (ltb 100)) low,
      )
    where
      not-true : (b : Bool) → not b ≡ true → b ≡ false
      not-true true h = cc
      not-true false h = refl

  opened :
      (d : VtData) (i : ValidatedIndicator) {u : Unit {0}}
      → check_object k hash d i ≡ ok u
      → check_file d i ≡ ok u
  unfolding check_object
  opened d i h = h

  -- VirusTotal's report on a file is accepted only if its identifier is a SHA-256 digest and the digest
  -- that was looked up is the report's own, in the algorithm of the lookup and but for the letters' case.
  pub decode_virustotal-Identity :
      (raw : Value) (i : ValidatedIndicator) (r : Summary × Option DateTime)
      → decode_virustotal k raw i ≡ ok r
      → i.input.kind ≡ hash
      → IsOwnFile raw i
  unfolding decode_virustotal check_file IsOwnFile
  decode_virustotal-Identity raw i r h file =
      let (d, b, h1) = bind-eq-ok (ok_or (k.read_virustotal raw) invalid_response) _ h in
      let (u, c, h2) = bind-eq-ok (check_object k i.input.kind d i) _ h1 in
      let c' = ap (λ kind. check_object k kind d i) (sym file) ∙ c in
      let (v, e, h3) =
        bind-eq-ok
          (ensure (text_eq d.object_type (codes "file") && valid_hash d.id 64) invalid_response) _
          (opened d i c') in
      let (w, f, h4) =
        bind-eq-ok
          (ensure
            (is_some_and (requested_hash i.hash_algorithm d)
              (λ hash. eq_ignore_ascii_case hash i.lookup_value))
            invalid_response)
          _ h3 in
      let (typed, long) =
        and-true (text_eq d.object_type (codes "file")) _ (ensure-ok _ invalid_response e) in
      let (own, p, q) =
        some_and (requested_hash i.hash_algorithm d) _ (ensure-ok _ invalid_response f) in
      (
        d,
        own,
        ok_or-ok (k.read_virustotal raw) invalid_response b,
        long,
        requested_hash-IsOwnDigest i.hash_algorithm d own p,
        q,
      )
