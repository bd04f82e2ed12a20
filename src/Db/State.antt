-- ===== src/Db/State.antt =====
-- filedb/filedb.go: `DB`, with the bucket files and the read cache of filedb/evercache.go.
-- A bucket is the list of its entries under their addresses. Times are nanoseconds from year 1 on, and 0 is
-- the zero time.
use jacred_go.Base.{ℕ, ◌-◌, ◌/◌, Bool, List, [], ◌∷◌, Str, leb, ◌==◌, if◌then◌else◌, map}
use jacred_go.Base.Atoi.{ℤ, pos, negsuc}
use jacred_go.Base.Split.{split_at}
use jacred_go.Base.Trim.{trim_space, is_empty}

abbrev pub Bucket : Type 0 → Type 0
Bucket A = List (Str × A)

-- `TorrentInfo`
pub record TorrentInfo : Type 0 where
  pub update_time : ℕ
  pub file_time : ℤ

-- `dirtyEntry`
pub record DirtyEntry (A : Type 0) : Type 0 where
  pub bucket : Bucket A
  pub updated_at : ℕ

-- Why a bucket cannot be read: no file, a damaged one, and any other error.
pub data ReadError : Type 0 where
  not_exist damaged other_error : ReadError

-- What a bucket file decodes to.
pub data FileContent (A : Type 0) : Type 0 where
  good : Bucket A → FileContent A
  bad : ReadError → FileContent A

-- `bucketCacheEntry`
pub record CachedBucket (A : Type 0) : Type 0 where
  pub bucket : Bucket A
  pub accessed_at : ℕ

-- `Evercache` of the configuration, its hours in nanoseconds.
pub record CacheConfig : Type 0 where
  pub enable : Bool
  pub valid : ℕ
  pub max_open : ℕ
  pub drop_take : ℕ

-- `DB`, with `ecStore` and the files by their paths.
pub record Database (A : Type 0) : Type 0 where
  pub master : List (Str × TorrentInfo)
  pub fast : List (Str × List Str)
  pub unsaved : Bool
  pub dirty_buckets : List (Str × DirtyEntry A)
  pub cache : List (Str × CachedBucket A)
  pub files : List (Str × FileContent A)

-- `a - b`, as an `int64`.
abbrev pub sub_int : ℕ → ℕ → ℤ
sub_int a b = if leb b a then pos (a - b) else negsuc (b - a - 1)

-- `ToFileTimeUTC`: ticks of 100 ns from 1601 on.
abbrev pub to_file_time_utc : ℕ → ℤ
to_file_time_utc t = if t == 0 then pos 0 else sub_int (t / 100) 504911232000000000

abbrev pub keep_non_empty : List Str → List Str
keep_non_empty [] = []
keep_non_empty (s ∷ ss) = let rest = keep_non_empty ss in if is_empty s then rest else s ∷ rest

-- The parts of a key: in a save trimmed, in a rebuild as they stand.
unfoldable pub key_parts : Str → List Str
unfolding trim_space split_at
key_parts key = keep_non_empty (map trim_space (split_at b':' key))

unfoldable pub raw_parts : Str → List Str
unfolding split_at
raw_parts key = keep_non_empty (split_at b':' key)
