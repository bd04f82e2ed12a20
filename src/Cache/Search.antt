-- ===== src/Cache/Search.antt =====
-- server/cache.go: `searchCache`. Go's map is a list of its entries in the order of an iteration, which
-- is any order. Times count from some instant on; the size limit is not negative.
use jacred_go.Base.{
  ℕ, ◌-◌, ◌/◌, Bool, not, List, [], ◌∷◌, Option, none, some, Str, equal, ltb, leb, if◌then◌else◌,
  length, keep,
}

-- `cacheEntry`, under its key.
pub record CacheEntry : Type 0 where
  pub key : Str
  pub payload : Str
  pub created : ℕ

-- `searchCache`
pub record SearchCache : Type 0 where
  pub entries : List CacheEntry
  pub ttl : ℕ
  pub max_size : ℕ

-- `newSearchCache`
abbrev pub new_search_cache : ℕ → ℕ → SearchCache
new_search_cache ttl max_size = record { entries = []; ttl = ttl; max_size = max_size }

abbrev pub expired : ℕ → ℕ → CacheEntry → Bool
expired ttl now e = ltb ttl (now - e.created)

unfoldable pub lookup : Str → List CacheEntry → Option CacheEntry
lookup k [] = none
lookup k (e ∷ es) = let rest = lookup k es in if equal e.key k then some e else rest

-- `delete(c.entries, key)`
abbrev pub without : Str → List CacheEntry → List CacheEntry
without k es = keep (λ e. not (equal e.key k)) es

-- What `Get` does with the entry that it finds.
abbrev pub get_entry : Str → ℕ → SearchCache → Option CacheEntry → Option Str × SearchCache
get_entry k now c none = (none, c)
get_entry k now c (some e) =
    if expired c.ttl now e
    then (none, record c { entries = without k c.entries })
    else (some e.payload, c)

-- `Get`
unfoldable pub cache_get : Str → ℕ → SearchCache → Option Str × SearchCache
unfolding lookup
cache_get k now c = get_entry k now c (lookup k c.entries)

-- The loop that deletes entries until `target` are left.
unfoldable pub evict : ℕ → List CacheEntry → List CacheEntry
evict target [] = []
evict target (e ∷ es) =
    let rest = evict target es in if leb (length (e ∷ es)) target then e ∷ es else rest

-- `c.maxSize - c.maxSize/10`; below 1 it is 0 already.
abbrev pub target_size : ℕ → ℕ
target_size max_size = max_size - max_size / 10

abbrev pub evict_if_full : ℕ → List CacheEntry → List CacheEntry
evict_if_full max_size es = if leb max_size (length es) then evict (target_size max_size) es else es

-- The two passes of `Set` over a cache that is full.
unfoldable pub make_room : ℕ → SearchCache → List CacheEntry
unfolding evict
make_room now c =
    if leb c.max_size (length c.entries)
    then evict_if_full c.max_size (keep (λ e. not (expired c.ttl now e)) c.entries)
    else c.entries

-- `c.entries[key] = entry`
unfoldable pub put_entry : CacheEntry → List CacheEntry → List CacheEntry
put_entry n [] = n ∷ []
put_entry n (e ∷ es) = if equal e.key n.key then n ∷ es else e ∷ put_entry n es

-- `Set`; the clock is read once for the passes and once for the entry.
unfoldable pub cache_set : Str → Str → ℕ → ℕ → SearchCache → SearchCache
unfolding make_room put_entry
cache_set k payload now created c = record c {
  entries = put_entry (record { key = k; payload = payload; created = created }) (make_room now c);
}

-- `Invalidate`
abbrev pub invalidate : SearchCache → SearchCache
invalidate c = record c { entries = [] }
