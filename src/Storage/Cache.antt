-- ===== src/Storage/Cache.antt =====
-- The cache of src/storage.rs: `ttl`, `delete_expired`, `evict`, and what `cache_get` and `cache_put` do
-- inside `bounded`. The table is the list of its rows in the order of the index `cache_fifo`; serde_json
-- is a parameter.
pub mod Evict
pub mod Entries
use rust_enrich.Common.{
  ℕ, zero, suc, ◌+◌, ◌-◌, ◌≤◌, min, Bool, true, false, not, ◌&&◌, ◌||◌, Option, none, some, List,
  [], ◌∷◌, Result, ok, err, ok_or, ensure, ◌>>=◌, ◌>>◌, ltb, leb, ◌==◌, if◌then◌else◌, keep, drop,
  length, is_none, any,
}
use rust_enrich.Common.Clock.{Millis, Chrono, DateTime, checked_add}
use rust_enrich.Common.Text.{Text, text_eq, bytes}
use rust_enrich.Domain.Types.{
  ProviderId, abuseipdb, virustotal, IndicatorKind, ip, url, hash, Status, success, not_found,
}
use rust_enrich.Storage.Types.{StorageError, invalid_data}

-- The times to live in milliseconds and the bounds of the table.
pub record CacheLimits : Type 0 where
  pub max_entries : ℕ
  pub max_bytes : ℕ
  pub ip_ttl : ℕ
  pub url_ttl : ℕ
  pub hash_ttl : ℕ
  pub not_found_ttl : ℕ

-- A row of `cache_entries`; `missing` is the outcome "not_found", against "ok".
pub record CacheEntry : Type 0 where
  pub provider : ProviderId
  pub cache_key : Text
  pub payload_version : ℕ
  pub kind : IndicatorKind
  pub missing : Bool
  pub fetched_at : Millis
  pub expires_at : Millis
  pub payload : List ℕ
  pub payload_bytes : ℕ

abbrev pub kind_ttl : CacheLimits → IndicatorKind → ℕ
kind_ttl l ip = l.ip_ttl
kind_ttl l url = l.url_ttl
kind_ttl l hash = l.hash_ttl

unfoldable pub ttl : CacheLimits → IndicatorKind → Bool → ℕ
ttl l kind true = l.not_found_ttl
ttl l kind false = kind_ttl l kind

abbrev bytes_lt : List ℕ → List ℕ → Bool
bytes_lt [] [] = false
bytes_lt [] (c ∷ t) = true
bytes_lt (d ∷ s) [] = false
bytes_lt (d ∷ s) (c ∷ t) = ltb d c || (d == c && bytes_lt s t)

abbrev provider_lt : ProviderId → ProviderId → Bool
provider_lt abuseipdb virustotal = true
provider_lt _ _ = false

abbrev provider_eq : ProviderId → ProviderId → Bool
provider_eq abuseipdb abuseipdb = true
provider_eq virustotal virustotal = true
provider_eq _ _ = false

abbrev kind_eq : IndicatorKind → IndicatorKind → Bool
kind_eq ip ip = true
kind_eq url url = true
kind_eq hash hash = true
kind_eq _ _ = false

-- `fetched_at, cache_key, provider`
abbrev fifo_lt : CacheEntry → CacheEntry → Bool
fifo_lt a b =
    ltb a.fetched_at b.fetched_at
    || (a.fetched_at == b.fetched_at
        && (bytes_lt (bytes a.cache_key) (bytes b.cache_key)
            || (text_eq a.cache_key b.cache_key && provider_lt a.provider b.provider)))

abbrev pub same_key : ProviderId → Text → CacheEntry → Bool
same_key provider key e = provider_eq provider e.provider && text_eq key e.cache_key

insert_entry : CacheEntry → List CacheEntry → List CacheEntry
insert_entry e [] = e ∷ []
insert_entry e (f ∷ rest) =
    let later = insert_entry e rest in if fifo_lt e f then e ∷ f ∷ rest else f ∷ later

-- `INSERT … ON CONFLICT (provider, cache_key) DO UPDATE`
unfoldable pub upsert : CacheEntry → List CacheEntry → List CacheEntry
unfolding insert_entry
upsert e rows = insert_entry e (keep (λ f. not (same_key e.provider e.cache_key f)) rows)

-- the condition of `delete_expired`
unfoldable pub is_expired : CacheLimits → Millis → Millis → CacheEntry → Bool
unfolding ttl
is_expired l wall now e =
    leb e.expires_at now || ltb wall e.fetched_at || leb (e.fetched_at + ttl l e.kind e.missing) now

abbrev pub total_bytes : List CacheEntry → ℕ
total_bytes [] = 0
total_bytes (e ∷ rows) = e.payload_bytes + total_bytes rows

abbrev pub take : ℕ → List CacheEntry → List CacheEntry
take zero rows = []
take (suc n) [] = []
take (suc n) (e ∷ rows) = e ∷ take n rows

abbrev pub is_over : CacheLimits → ℕ → ℕ → Bool
is_over l entries size = ltb l.max_entries entries || ltb l.max_bytes size

-- The inner loop of `evict`: how many rows go, and what is left of the totals.
unfoldable pub drop_rows : CacheLimits → ℕ → ℕ → List CacheEntry → ℕ × ℕ × ℕ
drop_rows l entries size [] = (0, entries, size)
drop_rows l entries size (e ∷ rows) =
    let (count, entries', size') = drop_rows l (entries - 1) (size - e.payload_bytes) rows in
    if is_over l entries size then (suc count, entries', size') else (0, entries, size)

abbrev pub chunk : ℕ
chunk = 500

-- The outer loop of `evict`, with the totals that it keeps.
unfoldable pub evict_rows :
    ℕ → CacheLimits → ℕ → ℕ → List CacheEntry → Result StorageError (List CacheEntry)
unfolding drop_rows
evict_rows zero l entries size rows = err invalid_data
evict_rows (suc fuel) l entries size rows =
    let (count, entries', size') = drop_rows l entries size (take chunk rows) in
    let rest = evict_rows fuel l entries' size' (drop count rows) in
    if is_over l entries size then (if count == 0 then err invalid_data else rest) else ok rows

-- One round for each row, and the last test, are enough. The `SUM` of the bytes is a number without
-- the bound of an `i64`.
unfoldable pub evict : CacheLimits → List CacheEntry → Result StorageError (List CacheEntry)
unfolding evict_rows
evict l rows = evict_rows (suc (length rows)) l (length rows) (total_bytes rows) rows

-- `ORDER BY expires_at, cache_key, provider`
abbrev expiry_lt : CacheEntry → CacheEntry → Bool
expiry_lt a b =
    ltb a.expires_at b.expires_at
    || (a.expires_at == b.expires_at
        && (bytes_lt (bytes a.cache_key) (bytes b.cache_key)
            || (text_eq a.cache_key b.cache_key && provider_lt a.provider b.provider)))

insert_doomed : CacheEntry → List CacheEntry → List CacheEntry
insert_doomed e [] = e ∷ []
insert_doomed e (f ∷ rest) =
    let later = insert_doomed e rest in if expiry_lt e f then e ∷ f ∷ rest else f ∷ later

sort_doomed : List CacheEntry → List CacheEntry
unfolding insert_doomed
sort_doomed [] = []
sort_doomed (e ∷ rows) = insert_doomed e (sort_doomed rows)

-- The rows that stay, and how many go: at most a chunk.
unfoldable pub delete_expired :
    CacheLimits → Millis → Millis → List CacheEntry → List CacheEntry × ℕ
unfolding is_expired sort_doomed
delete_expired l wall now rows =
    let doomed = take chunk (sort_doomed (keep (is_expired l wall now) rows)) in
    (keep (λ e. not (any (same_key e.provider e.cache_key) doomed)) rows, length doomed)

-- The transaction of `cleanup`.
unfoldable pub cleanup_rows : CacheLimits → Millis → Millis → List CacheEntry → List CacheEntry
unfolding delete_expired
cleanup_rows l wall now rows = (delete_expired l wall now rows).0

-- What `cache_get` reads of a decoded `Outcome`: its status is `missing`, or "ok", or neither.
pub record Decoded : Type 0 where
  pub missing : Option Bool
  pub fetched_at : Option Millis
  pub has_error : Bool

abbrev same_missing : Bool → Option Bool → Bool
same_missing a none = false
same_missing true (some b) = b
same_missing false (some b) = not b

abbrev lookup_entry : ProviderId → Text → IndicatorKind → List CacheEntry → Option CacheEntry
lookup_entry provider key kind [] = none
lookup_entry provider key kind (e ∷ rows) =
    let later = lookup_entry provider key kind rows in
    if same_key provider key e && kind_eq kind e.kind then some e else later

-- The fresh row's answer: the decoded payload and when it expires.
answer_row :
    {Payload : Type 0}
    → Chrono
    → (List ℕ → Option Payload)
    → (Payload → Decoded)
    → CacheEntry
    → Millis
    → Result StorageError (Option (Payload × DateTime))
answer_row c from_slice view e expiry = do
  outcome ← ok_or (from_slice e.payload) invalid_data
  let seen = view outcome
  ensure (same_missing e.missing seen.missing && (match_time seen.fetched_at && not seen.has_error))
      invalid_data
  expires ← ok_or (c.from_timestamp_millis expiry) invalid_data
  ok (some (outcome, expires))
  where
    match_time : Option Millis → Bool
    match_time none = false
    match_time (some t) = t == e.fetched_at

-- The body of `cache_get` for the row that was found: the rows that stay, and the answer.
unfoldable pub get_row :
    {Payload : Type 0}
    → Chrono
    → (List ℕ → Option Payload)
    → (Payload → Decoded)
    → CacheLimits
    → Millis
    → Millis
    → List CacheEntry
    → Option CacheEntry
    → List CacheEntry × Result StorageError (Option (Payload × DateTime))
unfolding answer_row ttl
get_row c from_slice view l wall now rows none = (rows, ok none)
get_row c from_slice view l wall now rows (some e) =
    let time = ttl l e.kind e.missing in
    let expiry = min e.expires_at (e.fetched_at + time) in
    if time == 0
    then (rows, ok none)
    else if is_none (checked_add e.fetched_at time)
    then (rows, err invalid_data)
    else if leb expiry now
    then (keep (λ f. not (same_key e.provider e.cache_key f)) rows, ok none)
    else if ltb wall e.fetched_at
    then (rows, ok none)
    else (rows, answer_row c from_slice view e expiry)

unfoldable pub cache_get :
    {Payload : Type 0}
    → Chrono
    → (List ℕ → Option Payload)
    → (Payload → Decoded)
    → CacheLimits
    → Millis
    → Millis
    → ProviderId
    → Text
    → IndicatorKind
    → List CacheEntry
    → List CacheEntry × Result StorageError (Option (Payload × DateTime))
unfolding get_row
cache_get c from_slice view l wall now provider key kind rows =
    get_row c from_slice view l wall now rows (lookup_entry provider key kind rows)

-- The transaction of `cache_put`, with the row that it stores: the rows, and when the entry expires if
-- it was kept.
unfoldable pub put_row :
    CacheLimits
    → Millis
    → Millis
    → CacheEntry
    → List CacheEntry
    → Result StorageError (List CacheEntry × Bool)
unfolding delete_expired upsert evict
put_row l wall now e rows =
    if ltb wall e.fetched_at || leb e.expires_at now then ok (rows, false) else (do
      kept ← evict l (upsert e (delete_expired l wall now rows).0)
      ok (kept, any (same_key e.provider e.cache_key) kept))
