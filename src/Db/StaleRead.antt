-- ===== src/Db/StaleRead.antt =====
-- filedb/admin.go: a read of a bucket between the first step of a flush and the write of its file.
use jacred_go.Base.{
  ℕ, ◌+◌, true, false, ◌&&◌, List, [], Option, none, some, Str, equal_refl, ltb, ◌==◌, ◌≡◌, refl,
  ap, ◌∙◌, arith, length,
}
use jacred_go.Base.Dict.{find, put, find-put}
use jacred_go.Db.State.{Bucket, good, CachedBucket, CacheConfig, DirtyEntry, Database}
use jacred_go.Db.Cache.{ec_enabled, ec_get, ec_put}
use jacred_go.Db.Reads.{opened, through_cache, open_read, open_read_path, open_read_no_cache}
use jacred_go.Db.Writes.{flush_begin, flush_one}

module _ {A : Type 0} (path_of : Str → Str) (cfg : CacheConfig) where
  -- The flush of one bucket, with a read of its key before its file is written.
  abbrev pub read_in_flush : Str → DirtyEntry A → ℕ → Database A → Database A
  read_in_flush key d now db =
      flush_one path_of cfg key d true
        (open_read path_of cfg key now (flush_begin path_of cfg db).1).1

  cached_miss :
      (path : Str) (b : Bucket A) (now : ℕ)
      → ec_enabled cfg ≡ true
      → (cfg.max_open == 0) ≡ true
      → (c : List (Str × CachedBucket A))
      → find path (ec_put cfg path b now c) ≡ some (record { bucket = b; accessed_at = now })
  unfolding ec_put
  cached_miss path b now on unlimited c =
      let never : ltb 0 cfg.max_open && ltb cfg.max_open (length (put path e c)) ≡ false =
        ground arith in
      rw (on, never) (find-put path path e c ∙ rw (equal_refl path) refl)
    where
      e : CachedBucket A
      e = record { bucket = b; accessed_at = now }

  fresh_hit :
      (path : Str) (b : Bucket A) (now later : ℕ) (c : List (Str × CachedBucket A))
      → ec_enabled cfg ≡ true
      → ltb (now + cfg.valid) later ≡ false
      → find path c ≡ some (record { bucket = b; accessed_at = now })
      → (ec_get cfg path later c).0 ≡ some b
  unfolding ec_get
  fresh_hit path b now later c on fresh e = rw (on, e, fresh) refl

  -- The bucket of a key is in memory only as a dirty one, and its file holds an older one. If the key is read
  -- between the first step of `FlushDirtyBuckets` and the write of its file, then, with the cache enabled and
  -- without a limit on its size, `OpenRead` gives the older bucket for as long as a cache entry is valid, though
  -- the write has succeeded and `OpenReadNoCache` gives the new one.
  pub open_read-read_in_flush :
      (key : Str) (old : Bucket A) (d : DirtyEntry A) (now later : ℕ) (db : Database A)
      → ec_enabled cfg ≡ true
      → (cfg.max_open == 0) ≡ true
      → ltb (now + cfg.valid) later ≡ false
      → find key db.dirty_buckets ≡ some d
      → find (path_of key) db.cache ≡ none
      → find (path_of key) db.files ≡ some (good old)
      → ((open_read path_of cfg key later (read_in_flush key d now db)).0 ≡ opened old)
        × (open_read_no_cache path_of cfg key (read_in_flush key d now db) ≡ opened d.bucket)
  unfolding open_read open_read_path open_read_no_cache flush_one find ec_get
  open_read-read_in_flush key old d now later db on unlimited fresh dirty uncached file = rw first (
    hit later after_write
        (ec_get cfg (path_of key) later (ec_put cfg (path_of key) old now db.cache))
        (fresh_hit (path_of key) old now later (ec_put cfg (path_of key) old now db.cache) on fresh
          (cached_miss (path_of key) old now on unlimited db.cache)),
    rw (find-put (path_of key) (path_of key) (good d.bucket) db.files, equal_refl (path_of key))
        refl,
  )
    where
      miss : ec_get cfg (path_of key) now db.cache ≡ (none, db.cache)
      miss = rw (on, uncached) refl

      first :
          (open_read path_of cfg key now (flush_begin path_of cfg db).1).1
          ≡ (record db { dirty_buckets = []; cache = ec_put cfg (path_of key) old now db.cache })
      first = rw (miss, file) refl

      after_write : Database A
      after_write = record db {
        dirty_buckets = [];
        cache = ec_put cfg (path_of key) old now db.cache;
        files = put (path_of key) (good d.bucket) db.files;
      }

      hit :
          (t : ℕ) (x : Database A) (r : Option (Bucket A) × List (Str × CachedBucket A))
          → r.0 ≡ some old
          → (through_cache path_of cfg (path_of key) t x r).0 ≡ opened old
      hit t x (none, c) e = absurd (clash e)
        where
          clash : ◌≡◌ {A = Option (Bucket A)} none (some old) → ⊥
          clash y = cc
      hit t x (some b, c) e = ap (λ (y : Bucket A). opened y) (same_bucket b old e)
        where
          same_bucket : (a b : Bucket A) → some a ≡ some b → a ≡ b
          same_bucket a b g = cc
