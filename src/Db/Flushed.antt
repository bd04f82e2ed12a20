-- ===== src/Db/Flushed.antt =====
-- filedb/admin.go: what `FlushDirtyBuckets` does to what is read, whichever writes fail.
use jacred_go.Base.{
  Bool, true, false, ◌&&◌, ◌||◌, List, [], ◌∷◌, Option, none, some, Str, equal, equal_iff,
  equal_refl, ◌≡◌, ◌⊎◌, refl, ap, ◌∙◌, inl, inr, arith, if◌then◌else◌, Bool-cases, Option-cases,
  All,
}
use jacred_go.Base.Dict.{find, put, has, find-put, has-put, has_cons, absent-find, IsMap, put-IsMap}
use jacred_go.Db.State.{good, CachedBucket, CacheConfig, DirtyEntry, Database}
use jacred_go.Db.Reads.{Read, opened, open_read_path, open_read_no_cache}
use jacred_go.Db.Writes.{flush_begin, flush_one, flush_all, flush_dirty_buckets}
use jacred_go.Db.CacheEntries.{All-map}
use jacred_go.Db.Coherent.{Fits, IsCoherent, IsInjective, apart}
use jacred_go.Db.Saved.{seen}

module _ {A : Type 0} (path_of : Str → Str) (cfg : CacheConfig) (inj : IsInjective path_of) where
  -- A read of a key while buckets are on their way to the files.
  abbrev after : Option (DirtyEntry A) → Read A → Read A
  after none r = r
  after (some d) r = opened d.bucket

  abbrev Flushing : List (Str × DirtyEntry A) → Database A → Type 0
  Flushing rest db =
      IsMap rest
      × IsMap db.dirty_buckets
      × ((k : Str) → has k rest && has k db.dirty_buckets ≡ false)
      × All (Fits path_of (λ k. has k db.dirty_buckets || has k rest) db.files) db.cache

  -- A written bucket.
  flush_one-written :
      (key : Str) (d : DirtyEntry A) (rest : List (Str × DirtyEntry A)) (db : Database A)
      → Flushing ((key, d) ∷ rest) db
      → Flushing rest (flush_one path_of cfg key d true db)
  unfolding flush_one
  flush_one-written key d rest db ((h, hs), m, apart_from, fits) = (
    hs,
    m,
    λ k. ground (arith, apart_from k, has_cons key k d rest),
    All-map (Fits path_of (λ k. has k db.dirty_buckets || has k ((key, d) ∷ rest)) db.files)
        (Fits path_of (λ k. has k db.dirty_buckets || has k rest)
          (put (path_of key) (good d.bucket) db.files))
        step db.cache fits,
  )
    where
      step :
          (e : Str × CachedBucket A)
          → Fits path_of (λ k. has k db.dirty_buckets || has k ((key, d) ∷ rest)) db.files e
          → Fits path_of
              (λ k. has k db.dirty_buckets || has k rest)
              (put (path_of key) (good d.bucket) db.files)
              e
      step e (g, alone, of_key) = (
        find-put (path_of key) e.0 (good d.bucket) db.files ∙ rw n g,
        λ k q. ground (arith, alone k q, has_cons key k d rest),
        of_key,
      )
        where
          clash : path_of key ≡ e.0 → ⊥
          clash q = ground (arith, alone key q, has_cons key key d rest, equal_refl key)

          n : equal (path_of key) e.0 ≡ false
          n = ground (arith, clash, equal_iff (path_of key) e.0)

  -- A bucket that is put back.
  flush_one-failed :
      (key : Str) (d : DirtyEntry A) (rest : List (Str × DirtyEntry A)) (db : Database A)
      → Flushing ((key, d) ∷ rest) db
      → Flushing rest (flush_one path_of cfg key d false db)
  unfolding flush_one
  flush_one-failed key d rest db ((h, hs), m, apart_from, fits) =
      let free : has key db.dirty_buckets ≡ false =
        ground (arith, apart_from key, has_cons key key d rest, equal_refl key) in
      rw free (
        hs,
        put-IsMap key d db.dirty_buckets m,
        λ k. disjoint k (Bool-cases (equal key k)),
        All-map (Fits path_of (λ k. has k db.dirty_buckets || has k ((key, d) ∷ rest)) db.files)
            (Fits path_of (λ k. has k (put key d db.dirty_buckets) || has k rest) db.files)
            (λ e (g, alone, of_key). (
              g,
              λ k q.
                  ground
                    (arith, alone k q, has_cons key k d rest, has-put key k d db.dirty_buckets),
              of_key,
            ))
            db.cache fits,
      )
    where
      disjoint :
          (k : Str)
          → (equal key k ≡ true) ⊎ (equal key k ≡ false)
          → has k rest && has k (put key d db.dirty_buckets) ≡ false
      disjoint k (inl y) = rw (← (equal_iff key k).0 y, h) refl
      disjoint k (inr n) =
          ground (arith, apart_from k, has_cons key k d rest, has-put key k d db.dirty_buckets)

  flush_one-Flushing :
      (w : Bool) (key : Str) (d : DirtyEntry A) (rest : List (Str × DirtyEntry A)) (db : Database A)
      → Flushing ((key, d) ∷ rest) db
      → Flushing rest (flush_one path_of cfg key d w db)
  flush_one-Flushing true key d rest db h = flush_one-written key d rest db h
  flush_one-Flushing false key d rest db h = flush_one-failed key d rest db h

  -- Written or put back, the bucket is what its key reads, and no other key's read changes.
  flush_one-seen :
      (w : Bool) (key : Str) (d : DirtyEntry A) (db : Database A) (k : Str)
      → has key db.dirty_buckets ≡ false
      → seen path_of cfg inj (flush_one path_of cfg key d w db) k
        ≡ (if equal key k then opened d.bucket else seen path_of cfg inj db k)
  unfolding flush_one open_read_no_cache open_read_path
  flush_one-seen false key d db k free = rw free (elim (Bool-cases (equal key k)) [
    | inl y ↦ rw (find-put key k d db.dirty_buckets, y) refl
    | inr n ↦ rw (find-put key k d db.dirty_buckets, n) refl
  ])
  flush_one-seen true key d db k free = elim (Bool-cases (equal key k)) [
    | inl y ↦
        let same : key ≡ k = (equal_iff key k).0 y in
        let none_k : find k db.dirty_buckets ≡ none =
          rw (← same) (absent-find key db.dirty_buckets free) in
        let here : find (path_of k) (put (path_of key) (good d.bucket) db.files)
            ≡ some (good d.bucket) =
          find-put (path_of key) (path_of k) (good d.bucket) db.files
          ∙ rw (same, equal_refl (path_of k)) refl in
        rw (y, none_k, here) refl
    | inr n ↦
        let there : find (path_of k) (put (path_of key) (good d.bucket) db.files)
            ≡ find (path_of k) db.files =
          find-put (path_of key) (path_of k) (good d.bucket) db.files
          ∙ rw (apart path_of inj key k n) refl in
        elim (Option-cases (find k db.dirty_buckets)) [
          | inl e ↦ rw (n, e, there) refl
          | inr (x, e) ↦ rw (n, e) refl
        ]
  ]

  flush_all-Flushing :
      (writes : Str → Bool) (rest : List (Str × DirtyEntry A)) (db : Database A)
      → Flushing rest db
      → Flushing [] (flush_all path_of cfg writes rest db).0
        × ((k : Str)
            → seen path_of cfg inj (flush_all path_of cfg writes rest db).0 k
              ≡ after (find k rest) (seen path_of cfg inj db k))
  unfolding flush_all find
  flush_all-Flushing writes [] db h = (h, λ k. refl)
  flush_all-Flushing writes ((key, d) ∷ rest) db h =
      let db1 : Database A = flush_one path_of cfg key d (writes key) db in
      let (f, v) =
        flush_all-Flushing writes rest db1 (flush_one-Flushing (writes key) key d rest db h) in
      let free : has key db.dirty_buckets ≡ false =
        ground (arith, h.2 key, has_cons key key d rest, equal_refl key) in
      (
        f,
        λ k.
            v k
            ∙ ap (after (find k rest)) (flush_one-seen (writes key) key d db k free)
            ∙ merged k h.0.0 (Bool-cases (equal key k)),
      )
    where
      merged :
          (k : Str)
          → has key rest ≡ false
          → (equal key k ≡ true) ⊎ (equal key k ≡ false)
          → after (find k rest) (if equal key k then opened d.bucket else seen path_of cfg inj db k)
            ≡ after (if equal key k then some d else find k rest) (seen path_of cfg inj db k)
      merged k no_key (inl y) = rw (y, ← (equal_iff key k).0 y, absent-find key rest no_key) refl
      merged k no_key (inr n) = rw n refl

  -- `FlushDirtyBuckets`, whichever of its writes fail.
  pub flush_dirty_buckets-seen :
      (writes : Str → Bool) (db : Database A)
      → IsMap db.dirty_buckets
      → IsCoherent path_of db
      → IsMap (flush_dirty_buckets path_of cfg writes db).0.dirty_buckets
        × IsCoherent path_of (flush_dirty_buckets path_of cfg writes db).0
        × ((k : Str)
            → seen path_of cfg inj (flush_dirty_buckets path_of cfg writes db).0 k
              ≡ seen path_of cfg inj db k)
  unfolding flush_dirty_buckets find open_read_no_cache open_read_path
  flush_dirty_buckets-seen writes db m h =
      let start : Flushing db.dirty_buckets (flush_begin path_of cfg db).1 =
        (m, tt, λ k. disjoint (has k db.dirty_buckets), h) in
      let (f, v) =
        flush_all-Flushing writes db.dirty_buckets (flush_begin path_of cfg db).1 start in
      (
        f.1,
        All-map _ _ (λ e (g, alone, of_key). (g, λ k q. ground (arith, alone k q), of_key)) _ f.3,
        λ k. v k ∙ taken k (find k db.dirty_buckets) refl,
      )
    where
      disjoint : (a : Bool) → a && false ≡ false
      disjoint a = ground arith

      taken :
          (k : Str) (o : Option (DirtyEntry A))
          → find k db.dirty_buckets ≡ o
          → after o (seen path_of cfg inj (flush_begin path_of cfg db).1 k)
            ≡ seen path_of cfg inj db k
      taken k none e = rw e refl
      taken k (some d) e = rw e refl
