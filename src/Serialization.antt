-- ===== src/Serialization.antt =====
-- src/serialization.rs: the writers that bound a response. A write succeeds with the number of bytes taken.
mod Tests
use rust_enrich.Common.{
  ℕ, ◌+◌, ◌-◌, ◌^◌, ◌≤◌, ◌≡◌, refl, Bool, true, false, List, [], ◌∷◌, ◌++◌, Result, ok, err, ltb,
  if◌then◌else◌, length, length-append, arith, leb, is_ok, Bool-cases, inl, inr, subst, sym, ap,
  ◌∙◌,
}

pub record LimitedWriter : Type 0 where
  pub bytes : List ℕ
  pub limit : ℕ

unfoldable pub new : ℕ → LimitedWriter
new limit = record { bytes = []; limit = limit }

unfoldable pub write : LimitedWriter → List ℕ → LimitedWriter × Result {0} Unit ℕ
write w buffer =
    if ltb (w.limit - length w.bytes) (length buffer)
    then (w, err tt)
    else (record w { bytes = w.bytes ++ buffer }, ok (length buffer))

abbrev pub Written : Type 0
Written = LimitedWriter × Result {0} Unit ℕ

unfoldable pub after_write : Written → Written → Written
after_write (w, err e) later = (w, err e)
after_write (w, ok n) later = later

-- `Write::write_all` for each part, until the first error
unfoldable pub write_parts : LimitedWriter → List (List ℕ) → Written
unfolding after_write
write_parts w [] = (w, ok 0)
write_parts w (part ∷ parts) =
    let later = write_parts (write w part).0 parts in after_write (write w part) later

-- `CountingWriter`: a `usize` that is not allowed to overflow
unfoldable pub count_write : ℕ → List ℕ → ℕ × Result {0} Unit ℕ
count_write count buffer =
    if ltb (count + length buffer) (2 ^ 64)
    then (count + length buffer, ok (length buffer))
    else (count, err tt)

Within : ℕ → LimitedWriter → Type 0
Within limit w = (length w.bytes ≤ limit) × (w.limit ≡ limit)

write-Within :
    (limit : ℕ) (w : LimitedWriter) (buffer : List ℕ)
    → Within limit w
    → Within limit (write w buffer).0
unfolding write Within
write-Within limit w buffer h = ground (arith, length-append w.bytes buffer)

after_write-Within :
    (limit : ℕ) (r later : Written)
    → Within limit r.0
    → Within limit later.0
    → Within limit (after_write r later).0
unfolding after_write
after_write-Within limit (w, err e) later a b = a
after_write-Within limit (w, ok n) later a b = b

write_parts-Within :
    (limit : ℕ) (w : LimitedWriter) (parts : List (List ℕ))
    → Within limit w
    → Within limit (write_parts w parts).0
unfolding write_parts
write_parts-Within limit w [] h = h
write_parts-Within limit w (part ∷ parts) h =
    let first = write-Within limit w part h in
    after_write-Within limit (write w part) (write_parts (write w part).0 parts) first
      (write_parts-Within limit (write w part).0 parts first)

-- Whatever a serializer writes, a new writer never holds more than its limit.
pub write_parts-bound :
    (limit : ℕ) (parts : List (List ℕ)) → length (write_parts (new limit) parts).0.bytes ≤ limit
unfolding Within new
write_parts-bound limit parts = (write_parts-Within limit (new limit) parts (omega arith, refl)).0

abbrev pub total : List (List ℕ) → ℕ
total [] = 0
total (part ∷ parts) = length part + total parts

after_write-fits :
    (w : LimitedWriter) (part : List ℕ) (rest : ℕ) (later : Written)
    → length w.bytes ≤ w.limit
    → is_ok later.1 ≡ leb (length (write w part).0.bytes + rest) w.limit
    → is_ok (after_write (write w part) later).1
      ≡ leb (length w.bytes + (length part + rest)) w.limit
unfolding after_write write
after_write-fits w part rest later h e = ground (arith, length-append w.bytes part)

-- All the parts are written exactly if together they fit behind what was written before.
write_parts-fits :
    (w : LimitedWriter) (parts : List (List ℕ))
    → length w.bytes ≤ w.limit
    → is_ok (write_parts w parts).1 ≡ leb (length w.bytes + total parts) w.limit
unfolding write_parts Within
write_parts-fits w [] h = ground arith
write_parts-fits w (part ∷ parts) h =
    let (bound, same) = write-Within w.limit w part (h, refl) in
    after_write-fits w part (total parts) (write_parts (write w part).0 parts) h (
      subst
        (λ limit.
          is_ok (write_parts (write w part).0 parts).1
          ≡ leb (length (write w part).0.bytes + total parts) limit)
        same
        (write_parts-fits (write w part).0 parts
          (subst (λ limit. length (write w part).0.bytes ≤ limit) (sym same) bound)))

-- A new writer takes a whole text exactly if the text is within the limit.
pub write_parts-Fits :
    (limit : ℕ) (parts : List (List ℕ))
    → is_ok (write_parts (new limit) parts).1 ≡ leb (total parts) limit
unfolding new
write_parts-Fits limit parts =
    write_parts-fits (new limit) parts (omega arith) ∙ ap (λ n. leb n limit) (omega arith)

-- `serde_json::to_writer` into a `CountingWriter`, until the first error
unfoldable pub count_parts : ℕ → List (List ℕ) → Result {0} Unit ℕ
unfolding count_write
count_parts count [] = ok count
count_parts count (part ∷ parts) =
    let rest = count_parts (count_write count part).0 parts in
    if is_ok (count_write count part).1 then rest else err tt

pub count_parts_lem :
    (count : ℕ) (parts : List (List ℕ)) (n : ℕ)
    → count_parts count parts ≡ ok n
    → n ≡ count + total parts
unfolding count_parts
count_parts_lem count [] n h = ground arith
count_parts_lem count (part ∷ parts) n h =
    ground (arith, count_parts_lem (count + length part) parts n)
