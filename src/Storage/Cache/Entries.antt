-- ===== src/Storage/Cache/Entries.antt =====
-- The bounds behind `cache_put` and the freshness of what `cache_get` answers, in src/storage.rs.
use rust_enrich.Common.{
  ℕ, ◌+◌, ◌≤◌, ◌<◌, ◌≡◌, ap, sym, ◌∙◌, subst, Bool, true, false, ◌||◌, Option, some, List, Result,
  ok, ltb, leb, if◌then◌else◌, length, arith, bind-eq-ok, ok-inj, any, ◌>>=◌,
}
use rust_enrich.Common.Clock.{Chrono, Millis, DateTime}
use rust_enrich.Domain.Types.{ip, url, hash}
use rust_enrich.Storage.Types.{StorageError}
use rust_enrich.Storage.Cache.{
  CacheLimits, CacheEntry, Decoded, total_bytes, ttl, get_row, put_row, delete_expired, upsert,
  evict, same_key,
}
use rust_enrich.Storage.Cache.Evict.{evict-Fits}

-- The time to live that the limits give a row now: of a missing report, or of the kind of indicator.
abbrev pub present_ttl : CacheLimits → CacheEntry → ℕ
present_ttl l e =
    if e.missing
    then l.not_found_ttl
    else elim e.kind [ ip ↦ l.ip_ttl | url ↦ l.url_ttl | hash ↦ l.hash_ttl ]

-- A hit is answered only from a row that was not fetched in the future and whose saved expiry and
-- present time to live are both still ahead.
pub get_row-fresh :
    {Payload : Type 0} (c : Chrono) (from_slice : List ℕ → Option Payload)
    (view : Payload → Decoded) (l : CacheLimits) (wall now : Millis) (rows : List CacheEntry)
    (e : CacheEntry) (hit : Payload × DateTime)
    → (get_row c from_slice view l wall now rows (some e)).1 ≡ ok (some hit)
    → (e.fetched_at ≤ wall) × (now < e.expires_at) × (now < e.fetched_at + present_ttl l e)
unfolding get_row ttl
get_row-fresh c from_slice view l wall now rows e hit h = ground arith

evicted-Fits :
    (l : CacheLimits) (rows kept : List CacheEntry)
    → evict l rows ≡ ok kept
    → (length kept ≤ l.max_entries) × (total_bytes kept ≤ l.max_bytes)
evicted-Fits l rows kept h =
    let (n, same, few, small) = evict-Fits l rows in
    subst (λ (xs : List CacheEntry). (length xs ≤ l.max_entries) × (total_bytes xs ≤ l.max_bytes))
      (ok-inj (sym same ∙ h)) (few, small)

choose-Fits :
    (l : CacheLimits) (old : Bool) (rows candidates kept : List CacheEntry)
    (found : List CacheEntry → Bool) (stored : Bool)
    → length rows ≤ l.max_entries
    → total_bytes rows ≤ l.max_bytes
    → Path
        (Result StorageError (List CacheEntry × Bool))
        (if old then ok (rows, false) else (evict l candidates >>= λ k. ok (k, found k)))
        (ok (kept, stored))
    → (length kept ≤ l.max_entries) × (total_bytes kept ≤ l.max_bytes)
choose-Fits l true rows candidates kept found stored few small h =
    let same : rows ≡ kept = ap (λ (r : List CacheEntry × Bool). r.0) (ok-inj h) in
    subst (λ (xs : List CacheEntry). (length xs ≤ l.max_entries) × (total_bytes xs ≤ l.max_bytes))
      same (few, small)
choose-Fits l false rows candidates kept found stored few small h =
    let (k, e, h') = bind-eq-ok (evict l candidates) _ h in
    let same : k ≡ kept = ap (λ (r : List CacheEntry × Bool). r.0) (ok-inj h') in
    evicted-Fits l candidates kept (e ∙ ap ok same)

-- A table within both limits stays within them when an entry is put.
pub put_row-Fits :
    (l : CacheLimits) (wall now : Millis) (e : CacheEntry) (rows kept : List CacheEntry)
    (stored : Bool)
    → length rows ≤ l.max_entries
    → total_bytes rows ≤ l.max_bytes
    → put_row l wall now e rows ≡ ok (kept, stored)
    → (length kept ≤ l.max_entries) × (total_bytes kept ≤ l.max_bytes)
unfolding put_row
put_row-Fits l wall now e rows kept stored few small h =
    choose-Fits l (ltb wall e.fetched_at || leb e.expires_at now) rows
      (upsert e (delete_expired l wall now rows).0) kept (any (same_key e.provider e.cache_key))
      stored few small h
