-- ===== src/Db/Flushes.antt =====
-- filedb: a flush that is done, and a flush with a read in between.
use jacred_go.Base.{
  Bool, true, false, not, ◌&&◌, ◌||◌, List, [], ◌∷◌, Option, none, some, Str, equal, equal_iff, ◌≡◌,
  ◌⊎◌, refl, ap, sym, ◌∙◌, inl, inr, arith, if◌then◌else◌, Bool-cases,
}
use jacred_go.Base.Dict.{find, put, has, find-put, has-put, has_cons, absent-find, IsMap}
use jacred_go.Db.State.{Bucket, FileContent, good, bad, CacheConfig, DirtyEntry, Database}
use jacred_go.Db.Reads.{opened, content, open_read_path, open_read_no_cache}
use jacred_go.Db.Writes.{
  write_bucket, flush_begin, put_back, flush_one, flush_all, flush_dirty_buckets,
}
use jacred_go.Db.Coherent.{IsCoherent, IsInjective, apart}
use jacred_go.Db.Saved.{seen}
use jacred_go.Db.Flushed.{flush_dirty_buckets-seen}

module _ {A : Type 0} (path_of : Str → Str) (cfg : CacheConfig) where
  flush_one-waiting :
      (key : Str) (d : DirtyEntry A) (w : Bool) (db : Database A) (k : Str)
      → has k (flush_one path_of cfg key d w db).dirty_buckets
        ≡ has k db.dirty_buckets || (equal key k && not w)
  unfolding flush_one
  flush_one-waiting key d true db k = ground arith
  flush_one-waiting key d false db k = elim (Bool-cases (has key db.dirty_buckets)) [
    | inl y ↦ rw y (waits y (Bool-cases (equal key k)))
    | inr n ↦ rw n (ground (arith, has-put key k d db.dirty_buckets))
  ]
    where
      waits :
          has key db.dirty_buckets ≡ true
          → (equal key k ≡ true) ⊎ (equal key k ≡ false)
          → has k db.dirty_buckets ≡ has k db.dirty_buckets || (equal key k && true)
      waits y (inl e) = rw (← (equal_iff key k).0 e, y) refl
      waits y (inr n) = ground arith

  flush_all-waiting :
      (writes : Str → Bool) (rest : List (Str × DirtyEntry A)) (db : Database A) (k : Str)
      → has k (flush_all path_of cfg writes rest db).0.dirty_buckets
        ≡ has k db.dirty_buckets || (has k rest && not (writes k))
  unfolding flush_all find
  flush_all-waiting writes [] db k = ground arith
  flush_all-waiting writes ((key, d) ∷ rest) db k =
      let same : equal key k ≡ true → writes key ≡ writes k =
        λ y. ap writes ((equal_iff key k).0 y) in
      flush_all-waiting writes rest (flush_one path_of cfg key d (writes key) db) k
      ∙ ground (arith, flush_one-waiting key d (writes key) db k, has_cons key k d rest, same)

module _ {A : Type 0} (path_of : Str → Str) (cfg : CacheConfig) (inj : IsInjective path_of) where
  content-good :
      (f : Option (FileContent A)) (b : Bucket A)
      → content path_of cfg f ≡ opened b
      → f ≡ some (good b)
  content-good none b e = cc
  content-good (some (good c)) b e = cc
  content-good (some (bad x)) b e = cc

  in_file :
      (key : Str) (b : Bucket A) (db : Database A)
      → has key db.dirty_buckets ≡ false
      → seen path_of cfg inj db key ≡ opened b
      → find (path_of key) db.files ≡ some (good b)
  unfolding open_read_no_cache open_read_path
  in_file key b db free e =
      let from_file : seen path_of cfg inj db key
          ≡ content path_of cfg (find (path_of key) db.files) =
        rw (absent-find key db.dirty_buckets free) refl in
      content-good (find (path_of key) db.files) b (sym from_file ∙ e)

  -- The file of a key whose write fails.
  flush_all-file :
      (writes : Str → Bool) (rest : List (Str × DirtyEntry A)) (db : Database A) (k : Str)
      → writes k ≡ false
      → find (path_of k) (flush_all path_of cfg writes rest db).0.files ≡ find (path_of k) db.files
  unfolding flush_all flush_one
  flush_all-file writes [] db k f = refl
  flush_all-file writes ((key, d) ∷ rest) db k f = elim (Bool-cases (writes key)) [
    | inl y ↦
        let other : equal key k ≡ false =
          ground (arith, λ (e : equal key k ≡ true). ap writes ((equal_iff key k).0 e)) in
        rw y (
          flush_all-file writes rest (write_bucket (path_of key) true d.bucket db) k f
          ∙ find-put (path_of key) (path_of k) (good d.bucket) db.files
          ∙ rw (apart path_of inj key k other) refl)
    | inr n ↦ rw n (
        flush_all-file writes rest (put_back path_of cfg key d db) k f
        ∙ kept (has key db.dirty_buckets))
  ]
    where
      kept :
          (b : Bool)
          → find
              (path_of k)
              (if b then db else record db { dirty_buckets = put key d db.dirty_buckets }).files
            ≡ find (path_of k) db.files
      kept true = refl
      kept false = refl

  -- While the cache agrees with the files and no two keys share a path, a bucket that waits when
  -- `FlushDirtyBuckets` starts waits no more when it ends, and is in its file, if its write succeeds; if its
  -- write fails it still waits, and its file is as before.
  pub flush_dirty_buckets-Writes :
      (writes : Str → Bool) (db : Database A) (key : Str) (d : DirtyEntry A)
      → IsMap db.dirty_buckets
      → IsCoherent path_of db
      → find key db.dirty_buckets ≡ some d
      → (has key (flush_dirty_buckets path_of cfg writes db).0.dirty_buckets ≡ not (writes key))
        × (find (path_of key) (flush_dirty_buckets path_of cfg writes db).0.files
            ≡ (if writes key then some (good d.bucket) else find (path_of key) db.files))
  unfolding flush_dirty_buckets find open_read_no_cache open_read_path
  flush_dirty_buckets-Writes writes db key d m h e =
      let (m', h', s) = flush_dirty_buckets-seen path_of cfg inj writes db m h in
      let was : has key db.dirty_buckets ≡ true = rw e refl in
      let waiting : has key (flush_dirty_buckets path_of cfg writes db).0.dirty_buckets
          ≡ not (writes key) =
        flush_all-waiting path_of cfg writes db.dirty_buckets (flush_begin path_of cfg db).1 key
        ∙ rw was refl in
      (
        waiting,
        elim (Bool-cases (writes key)) [
          | inl w ↦ rw w (
              in_file key d.bucket (flush_dirty_buckets path_of cfg writes db).0
                (waiting ∙ rw w refl) (s key ∙ rw e refl))
          | inr w ↦
              rw w (flush_all-file writes db.dirty_buckets (flush_begin path_of cfg db).1 key w)
        ],
      )
