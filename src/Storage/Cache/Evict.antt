-- ===== src/Storage/Cache/Evict.antt =====
-- What `evict` of src/storage.rs leaves of the cache.
use rust_enrich.Common.{
  ℕ, zero, suc, ◌+◌, ◌-◌, ◌≤◌, ◌<◌, ◌≡◌, refl, sym, ap, ◌∙◌, Bool, true, false, List, [], ◌∷◌, ok,
  err, ◌==◌, if◌then◌else◌, drop, length, arith, Bool-cases, inl, inr,
}
use rust_enrich.Storage.Types.{invalid_data}
use rust_enrich.Storage.Cache.{
  CacheLimits, CacheEntry, total_bytes, take, is_over, drop_rows, chunk, evict_rows, evict,
}

drop_nil : (k : ℕ) → Path (List CacheEntry) (drop k []) []
drop_nil zero = refl
drop_nil (suc k) = refl

drop-drop : (m n : ℕ) (rows : List CacheEntry) → drop n (drop m rows) ≡ drop (m + n) rows
drop-drop zero n rows = ap (λ k. drop k rows) (omega arith)
drop-drop (suc m) n [] = drop_nil n ∙ sym (drop_nil (suc m + n))
drop-drop (suc m) n (e ∷ rows) = drop-drop m n rows ∙ ap (λ k. drop k (e ∷ rows)) (suc_add m n)
  where
    suc_add : (m n : ℕ) → suc (m + n) ≡ suc m + n
    suc_add m n = omega arith

-- The totals that the inner loop leaves are those of the rows that it leaves, and it takes a row where
-- the totals are over the limits.
Drops : CacheLimits → ℕ → List CacheEntry → ℕ × ℕ × ℕ → Type 0
Drops l n rows r =
    (r.1 ≡ length (drop r.0 rows))
    × (r.2 ≡ total_bytes (drop r.0 rows))
    × (r.1 + r.0 ≡ length rows)
    × (is_over l (length rows) (total_bytes rows) ≡ true → 1 ≤ n → 1 ≤ r.0)

cons-Drops :
    (l : CacheLimits) (n : ℕ) (e : CacheEntry) (rows : List CacheEntry) (r : ℕ × ℕ × ℕ) (b : Bool)
    → Drops l n rows r
    → is_over l (suc (length rows)) (e.payload_bytes + total_bytes rows) ≡ b
    → Drops l (suc n) (e ∷ rows) (
        if b
        then (suc r.0, r.1, r.2)
        else (0, suc (length rows), e.payload_bytes + total_bytes rows))
unfolding Drops
cons-Drops l n e rows r true (a, b, c, d) h = (a, b, omega arith, λ _ _. omega arith)
cons-Drops l n e rows r false d h = (refl, refl, omega arith, λ h' _. cc)

same-Drops :
    (l : CacheLimits) (n : ℕ) (rows : List CacheEntry) (k t : ℕ)
    → k ≡ length rows
    → t ≡ total_bytes rows
    → Drops l n rows (drop_rows l (length rows) (total_bytes rows) (take n rows))
    → Drops l n rows (drop_rows l k t (take n rows))
same-Drops l n rows k t p q d = rw (p, q) d

drop_rows-Drops :
    (l : CacheLimits) (n : ℕ) (rows : List CacheEntry)
    → Drops l n rows (drop_rows l (length rows) (total_bytes rows) (take n rows))
unfolding Drops drop_rows
drop_rows-Drops l zero rows = (refl, refl, omega arith, λ _ h. h)
drop_rows-Drops l (suc n) [] = (refl, refl, omega arith, λ h _. ground arith)
drop_rows-Drops l (suc n) (e ∷ rows) =
    let entries = suc (length rows) - 1 in
    let size = e.payload_bytes + total_bytes rows - e.payload_bytes in
    cons-Drops l n e rows (drop_rows l entries size (take n rows))
      (is_over l (suc (length rows)) (e.payload_bytes + total_bytes rows))
      (same-Drops l n rows entries size (omega arith) (omega arith) (drop_rows-Drops l n rows)) refl

-- A round that takes at least a row, before rounds that end within the limits.
round-Fits :
    (fuel : ℕ) (l : CacheLimits) (rows : List CacheEntry) (r : ℕ × ℕ × ℕ)
    → Drops l chunk rows r
    → is_over l (length rows) (total_bytes rows) ≡ true
    → ((n : ℕ) × (evict_rows fuel l
            (length (drop r.0 rows))
            (total_bytes (drop r.0 rows))
            (drop r.0 rows)
          ≡ ok (drop n (drop r.0 rows)))
        × (is_over l (length (drop n (drop r.0 rows))) (total_bytes (drop n (drop r.0 rows)))
            ≡ false))
    → (n : ℕ) × ((if is_over l (length rows) (total_bytes rows)
          then (if r.0 == 0 then err invalid_data else evict_rows fuel l r.1 r.2 (drop r.0 rows))
          else ok rows)
        ≡ ok (drop n rows))
      × (is_over l (length (drop n rows)) (total_bytes (drop n rows)) ≡ false)
unfolding Drops
round-Fits fuel l rows r (a, b, c, d) over (n, same, fits) =
    let some_row : (r.0 == 0) ≡ false = ground (arith, d over (omega arith)) in
    (
      r.0 + n,
      rw (over, some_row, a, b) (same ∙ ap ok (drop-drop r.0 n rows)),
      ap (λ (xs : List CacheEntry). is_over l (length xs) (total_bytes xs))
            (sym (drop-drop r.0 n rows))
          ∙ fits,
    )

shorter :
    (l : CacheLimits) (rows : List CacheEntry) (r : ℕ × ℕ × ℕ)
    → Drops l chunk rows r
    → is_over l (length rows) (total_bytes rows) ≡ true
    → (fuel : ℕ) → length rows < suc fuel
    → length (drop r.0 rows) < fuel
unfolding Drops
shorter l rows r (a, b, c, d) over fuel h = let row : 1 ≤ r.0 = d over (omega arith) in omega arith

-- Enough fuel: a round for each row, and one more.
evict_rows-Fits :
    (fuel : ℕ) (l : CacheLimits) (rows : List CacheEntry)
    → length rows < fuel
    → (n : ℕ) × (evict_rows fuel l (length rows) (total_bytes rows) rows ≡ ok (drop n rows))
      × (is_over l (length (drop n rows)) (total_bytes (drop n rows)) ≡ false)
unfolding evict_rows
evict_rows-Fits zero l rows h = ground arith
evict_rows-Fits (suc fuel) l rows h =
    elim (Bool-cases (is_over l (length rows) (total_bytes rows))) [
      | inr fits ↦ (0, rw (fits) refl, fits)
      | inl over ↦
          let r = drop_rows l (length rows) (total_bytes rows) (take chunk rows) in
          let d = drop_rows-Drops l chunk rows in
          round-Fits fuel l rows r d over
            (evict_rows-Fits fuel l (drop r.0 rows) (shorter l rows r d over fuel h))
    ]

within :
    (l : CacheLimits) (entries size : ℕ)
    → is_over l entries size ≡ false
    → (entries ≤ l.max_entries) × (size ≤ l.max_bytes)
within l entries size h = (ground arith, ground arith)

-- `evict` always ends: it takes away the first rows in the order of `cache_fifo`, and what stays is within
-- both limits.
pub evict-Fits :
    (l : CacheLimits) (rows : List CacheEntry)
    → (n : ℕ) × (evict l rows ≡ ok (drop n rows))
      × (length (drop n rows) ≤ l.max_entries)
      × (total_bytes (drop n rows) ≤ l.max_bytes)
unfolding evict
evict-Fits l rows =
    let (n, same, fits) = evict_rows-Fits (suc (length rows)) l rows (omega arith) in
    let (few, small) = within l (length (drop n rows)) (total_bytes (drop n rows)) fits in
    (n, same, few, small)
