-- ===== src/Db/Reads.antt =====
-- filedb/filedb.go: `OpenRead` and `OpenReadNoCache`; filedb/writebucket.go: `OpenReadOrEmpty`.
-- The path of a key's file (MD5, package filepath) is the parameter `path_of`.
use jacred_go.Base.{ℕ, List, [], ◌++◌, codes, Option, none, some, Str}
use jacred_go.Base.Dict.{find, put, remove}
use jacred_go.Db.State.{
  Bucket, ReadError, not_exist, damaged, other_error, FileContent, good, bad, CachedBucket,
  CacheConfig, DirtyEntry, Database,
}
use jacred_go.Db.Cache.{ec_get, ec_put}

pub data Read (A : Type 0) : Type 0 where
  opened : Bucket A → Read A
  failed : ReadError → Read A

-- What becomes of a damaged file: `os.Rename` succeeds, or fails and `os.Remove` succeeds, or both fail.
pub data Move : Type 0 where
  renamed removed kept : Move

module _ {A : Type 0} (path_of : Str → Str) (cfg : CacheConfig) where
  abbrev pub content : Option (FileContent A) → Read A
  content none = failed not_exist
  content (some (good b)) = opened b
  content (some (bad e)) = failed e

  -- `openReadPath`
  unfoldable pub open_read_path : Str → Database A → Read A
  unfolding find
  open_read_path path db = content (find path db.files)

  abbrev pub cached_read : Str → ℕ → Database A → Read A → Read A × Database A
  cached_read path now db (opened b) =
      (opened b, record db { cache = ec_put cfg path b now db.cache })
  cached_read path now db (failed e) = (failed e, db)

  -- Behind the cache of buckets: a hit, or the file.
  abbrev pub through_cache :
      Str → ℕ → Database A → Option (Bucket A) × List (Str × CachedBucket A) → Read A × Database A
  through_cache path now db (some b, c) = (opened b, record db { cache = c })
  through_cache path now db (none, c) =
      cached_read path now (record db { cache = c }) (open_read_path path db)

  abbrev pub open_with : Str → ℕ → Database A → Option (DirtyEntry A) → Read A × Database A
  open_with key now db (some d) = (opened d.bucket, db)
  open_with key now db none =
      through_cache (path_of key) now db (ec_get cfg (path_of key) now db.cache)

  -- `OpenRead`
  unfoldable pub open_read : Str → ℕ → Database A → Read A × Database A
  unfolding find ec_get ec_put open_read_path
  open_read key now db = open_with key now db (find key db.dirty_buckets)

  abbrev pub no_cache_with : Str → Database A → Option (DirtyEntry A) → Read A
  no_cache_with key db (some d) = opened d.bucket
  no_cache_with key db none = open_read_path (path_of key) db

  -- `OpenReadNoCache`
  unfoldable pub open_read_no_cache : Str → Database A → Read A
  unfolding find open_read_path
  open_read_no_cache key db = no_cache_with key db (find key db.dirty_buckets)

  -- `quarantineCorruptBucket`: the file goes to `path.corrupt`; where the rename fails it is removed, if it can be.
  abbrev pub quarantine : Str → Move → Database A → Database A
  quarantine path renamed db = record db {
    files = put (path ++ codes ".corrupt") (bad damaged) (remove path db.files);
  }
  quarantine path removed db = record db { files = remove path db.files }
  quarantine path kept db = db

  abbrev pub or_empty_bucket : Str → Move → Read A × Database A → Read A × Database A
  or_empty_bucket key move (opened b, db) = (opened b, db)
  or_empty_bucket key move (failed not_exist, db) = (opened [], db)
  or_empty_bucket key move (failed damaged, db) = (opened [], quarantine (path_of key) move db)
  or_empty_bucket key move (failed other_error, db) = (failed other_error, db)

  -- `OpenReadOrEmpty`, which moves a damaged file out of the way.
  unfoldable pub open_read_or_empty : Str → ℕ → Move → Database A → Read A × Database A
  unfolding open_read remove put
  open_read_or_empty key now move db = or_empty_bucket key move (open_read key now db)
