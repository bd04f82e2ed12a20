-- ===== src/Db/Cache.antt =====
-- filedb/evercache.go: the cache of buckets that were read, by their paths.
use jacred_go.Base.{
  ℕ, ◌+◌, Bool, ◌&&◌, List, [], ◌∷◌, Option, none, some, Str, ltb, leb, ◌==◌, if◌then◌else◌, length,
  take, map,
}
use jacred_go.Base.Dict.{find, put, remove}
use jacred_go.Db.State.{Bucket, CachedBucket, CacheConfig}

-- `ecEnabled`
abbrev pub ec_enabled : CacheConfig → Bool
ec_enabled cfg = cfg.enable && ltb 0 cfg.valid

abbrev pub drop_count : CacheConfig → ℕ
drop_count cfg = if cfg.drop_take == 0 then 200 else cfg.drop_take

module _ {A : Type 0} (cfg : CacheConfig) where
  -- An entry that was last read before the cutoff.
  abbrev pub outdated : ℕ → CachedBucket A → Bool
  outdated now e = ltb (e.accessed_at + cfg.valid) now

  -- What `ecGet` does with the entry that it finds.
  abbrev pub ec_hit :
      Str
      → ℕ
      → List (Str × CachedBucket A)
      → Option (CachedBucket A)
      → Option (Bucket A) × List (Str × CachedBucket A)
  ec_hit path now c none = (none, c)
  ec_hit path now c (some e) =
      if outdated now e
      then (none, c)
      else (some e.bucket, put path (record e { accessed_at = now }) c)

  -- `ecGet`
  unfoldable pub ec_get :
      Str → ℕ → List (Str × CachedBucket A) → Option (Bucket A) × List (Str × CachedBucket A)
  unfolding find put
  ec_get path now c = if ec_enabled cfg then ec_hit path now c (find path c) else (none, c)

  -- `sort.Slice` by the time of the last read.
  unfoldable pub insert_by_access :
      Str × CachedBucket A → List (Str × CachedBucket A) → List (Str × CachedBucket A)
  insert_by_access e [] = e ∷ []
  insert_by_access e (f ∷ c) =
      let rest = insert_by_access e c in
      if leb e.1.accessed_at f.1.accessed_at then e ∷ f ∷ c else f ∷ rest

  unfoldable pub by_access : List (Str × CachedBucket A) → List (Str × CachedBucket A)
  unfolding insert_by_access
  by_access [] = []
  by_access (e ∷ c) = insert_by_access e (by_access c)

  unfoldable pub remove_all : List Str → List (Str × CachedBucket A) → List (Str × CachedBucket A)
  unfolding remove
  remove_all [] c = c
  remove_all (p ∷ ps) c = remove_all ps (remove p c)

  -- `evictOldest`
  unfoldable pub evict_oldest : ℕ → List (Str × CachedBucket A) → List (Str × CachedBucket A)
  unfolding by_access remove_all
  evict_oldest n c = remove_all (map (λ e. e.0) (take n (by_access c))) c

  abbrev pub evict_overflow : List (Str × CachedBucket A) → List (Str × CachedBucket A)
  evict_overflow c =
      if ltb 0 cfg.max_open && ltb cfg.max_open (length c)
      then evict_oldest (drop_count cfg) c
      else c

  -- `ecPut`
  unfoldable pub ec_put :
      Str → Bucket A → ℕ → List (Str × CachedBucket A) → List (Str × CachedBucket A)
  unfolding evict_oldest put
  ec_put path b now c =
      if ec_enabled cfg
      then evict_overflow (put path (record { bucket = b; accessed_at = now }) c)
      else c

  -- The loop of `EvictCache` with `taken` entries removed so far: what is left, and how many went.
  unfoldable pub evict_stale :
      ℕ → ℕ → ℕ → List (Str × CachedBucket A) → List (Str × CachedBucket A) × ℕ
  evict_stale n now taken [] = ([], taken)
  evict_stale n now taken (e ∷ c) =
      let gone = evict_stale n now (taken + 1) c in
      let (left, count) = evict_stale n now taken c in
      if ltb 0 n && leb n taken
      then (e ∷ c, taken)
      else if outdated now e.1
      then gone
      else (e ∷ left, count)

  -- `EvictCache`
  unfoldable pub evict_cache : ℕ → ℕ → List (Str × CachedBucket A) → List (Str × CachedBucket A) × ℕ
  unfolding evict_stale
  evict_cache n now c = if ec_enabled cfg then evict_stale n now 0 c else (c, 0)
