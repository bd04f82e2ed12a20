-- ===== src/Db/Writes.antt =====
-- filedb/writebucket.go: `saveBucketInternal`; filedb/admin.go: `FlushDirtyBuckets` and
-- `RemoveKeyFromMasterDb`. Whether the write of a file succeeds is an argument.
use jacred_go.Base.{
  ℕ, ◌+◌, Bool, true, false, not, List, [], ◌∷◌, ◌++◌, Option, none, some, Str, equal, contains,
  ◌==◌, if◌then◌else◌, keep, length,
}
use jacred_go.Base.Dict.{find, put, remove, has}
use jacred_go.Base.Sort.{sort_strings}
use jacred_go.Base.Trim.{trim_space, is_empty}
use jacred_go.Db.State.{
  Bucket, good, CacheConfig, DirtyEntry, Database, to_file_time_utc, key_parts,
}
use jacred_go.Db.Reads.{open_read}

-- `fastdb[part]`, nil on a missing part.
abbrev pub or_no_keys : Option (List Str) → List Str
or_no_keys none = []
or_no_keys (some ks) = ks

abbrev pub keys_at : Str → List (Str × List Str) → List Str
keys_at part fast = or_no_keys (find part fast)

-- A key among those of a part, in order.
abbrev pub with_key : Str → List Str → List Str
with_key key ks = sort_strings (ks ++ key ∷ [])

abbrev pub index_part : Str → Str → List (Str × List Str) → List (Str × List Str)
index_part key part fast =
    if contains (keys_at part fast) key
    then fast
    else put part (with_key key (keys_at part fast)) fast

-- The loop over the parts of a key.
unfoldable pub index_parts : Str → List Str → List (Str × List Str) → List (Str × List Str)
unfolding find put sort_strings
index_parts key [] fast = fast
index_parts key (p ∷ ps) fast = index_parts key ps (index_part key p fast)

abbrev pub without_key : Str → List Str → List Str
without_key key ks = keep (λ k. not (equal k key)) ks

-- The loop that takes a key out of the index, and parts with no keys with it.
unfoldable pub unindex : Str → List (Str × List Str) → List (Str × List Str)
unindex key [] = []
unindex key ((p, ks) ∷ fast) =
    let rest = unindex key fast in
    let left = without_key key ks in if length left == 0 then rest else (p, left) ∷ rest

abbrev pub write_bucket : {A : Type 0} → Str → Bool → Bucket A → Database A → Database A
write_bucket path true b db = record db { files = put path (good b) db.files }
write_bucket path false b db = db

module _ {A : Type 0} (path_of : Str → Str) (cfg : CacheConfig) where
  -- An empty bucket goes to its file at once, and its key out of memory.
  unfoldable pub save_empty : Str → Bool → Database A → Database A
  unfolding put remove unindex
  save_empty key writes db =
      let db1 = write_bucket (path_of key) writes [] db in
      record db1 {
        cache = remove (path_of key) db1.cache;
        dirty_buckets = remove key db1.dirty_buckets;
        master = remove key db1.master;
        fast = unindex key db1.fast;
      }

  -- Any other bucket waits in memory for a flush.
  unfoldable pub save_full : Str → Bucket A → ℕ → Database A → Database A
  unfolding put remove index_parts key_parts
  save_full key b at_time db = record db {
    dirty_buckets = put key (record { bucket = b; updated_at = at_time }) db.dirty_buckets;
    cache = remove (path_of key) db.cache;
    master =
        put key (record { update_time = at_time; file_time = to_file_time_utc at_time }) db.master;
    unsaved = true;
    fast = index_parts key (key_parts key) db.fast;
  }

  abbrev pub save_by_length : Str → Bucket A → ℕ → Bool → Database A → Database A
  save_by_length key [] at_time writes db = save_empty key writes db
  save_by_length key (e ∷ b) at_time writes db = save_full key (e ∷ b) at_time db

  -- The audit log reads the old bucket.
  abbrev pub audited : Bool → Str → ℕ → Database A → Database A
  audited true key now db = (open_read path_of cfg key now db).1
  audited false key now db = db

  -- `saveBucketInternal`
  unfoldable pub save_bucket_internal :
      Bool → Bool → Str → Bucket A → ℕ → ℕ → Database A → Database A
  unfolding trim_space save_empty save_full open_read
  save_bucket_internal audits writes key b updated_at now db =
      if is_empty (trim_space key)
      then db
      else save_by_length key b (if updated_at == 0 then now else updated_at) writes
          (audited audits key now db)

  -- The first step of `FlushDirtyBuckets`: the dirty buckets, and the database without them.
  abbrev pub flush_begin : Database A → List (Str × DirtyEntry A) × Database A
  flush_begin db = (db.dirty_buckets, record db { dirty_buckets = [] })

  -- A bucket that could not be written is dirty again, unless a newer one is.
  abbrev pub put_back : Str → DirtyEntry A → Database A → Database A
  put_back key d db =
      if has key db.dirty_buckets
      then db
      else record db { dirty_buckets = put key d db.dirty_buckets }

  -- One turn of its loop.
  unfoldable pub flush_one : Str → DirtyEntry A → Bool → Database A → Database A
  unfolding find put
  flush_one key d true db = write_bucket (path_of key) true d.bucket db
  flush_one key d false db = put_back key d db

  -- The loop, with what each write comes to.
  unfoldable pub flush_all : (Str → Bool) → List (Str × DirtyEntry A) → Database A → Database A × ℕ
  unfolding flush_one
  flush_all writes [] db = (db, 0)
  flush_all writes ((key, d) ∷ rest) db =
      let (db', n) = flush_all writes rest (flush_one key d (writes key) db) in
      (db', if writes key then n + 1 else n)

  -- `FlushDirtyBuckets`, with nothing else in between.
  unfoldable pub flush_dirty_buckets : (Str → Bool) → Database A → Database A × ℕ
  unfolding flush_all
  flush_dirty_buckets writes db = flush_all writes (flush_begin db).0 (flush_begin db).1

  -- `RemoveKeyFromMasterDb`
  unfoldable pub remove_key_from_master_db : Str → Database A → Database A
  unfolding remove unindex
  remove_key_from_master_db key db = record db {
    master = remove key db.master;
    fast = unindex key db.fast;
    unsaved = true;
  }
