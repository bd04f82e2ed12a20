-- ===== src/Db/Saved.antt =====
-- filedb/writebucket.go: what a save does to what is read.
use jacred_go.Base.{
  ℕ, Bool, true, false, not, ◌||◌, List, [], ◌∷◌, Str, equal, equal_iff, equal_refl, ◌≡◌, refl, ap,
  ◌∙◌, inl, inr, arith, if◌then◌else◌, Bool-cases, Option-cases, All, ◌==◌, length,
}
use jacred_go.Base.Dict.{find, put, remove, has, find-put, find-remove, has-put, has-remove}
use jacred_go.Base.Trim.{trim_space, is_empty}
use jacred_go.Db.State.{Bucket, good, CachedBucket, CacheConfig, DirtyEntry, Database}
use jacred_go.Db.Reads.{Read, opened, open_read, open_read_path, open_read_no_cache}
use jacred_go.Db.Writes.{save_empty, save_full, save_by_length, audited, save_bucket_internal}
use jacred_go.Db.CacheEntries.{All-remove, All-map, All-both, remove-Others}
use jacred_go.Db.Coherent.{
  Files, Fits, IsCoherent, IsInjective, apart, open_read_lem, IsSameButCache,
}

module _ {A : Type 0} (path_of : Str → Str) where
  -- The entries left when a path is dropped still fit once its key and its file change.
  drop-Fits :
      (key : Str) (waiting waiting' : Str → Bool) (files files' : Files A)
      (c : List (Str × CachedBucket A))
      → ((k : Str) → equal key k ≡ false → waiting' k ≡ waiting k)
      → ((p : Str) → equal (path_of key) p ≡ false → find p files' ≡ find p files)
      → All (Fits path_of waiting files) c
      → All (Fits path_of waiting' files') (remove (path_of key) c)
  drop-Fits key waiting waiting' files files' c w f h =
      All-map
        (λ (e : Str × CachedBucket A).
          Fits path_of waiting files e × (equal (path_of key) e.0 ≡ false))
        (Fits path_of waiting' files') step (remove (path_of key) c)
        (All-both (Fits path_of waiting files)
          (λ (e : Str × CachedBucket A). equal (path_of key) e.0 ≡ false) (remove (path_of key) c)
          (All-remove (Fits path_of waiting files) (path_of key) c h)
          (remove-Others (path_of key) c))
    where
      step :
          (e : Str × CachedBucket A)
          → Fits path_of waiting files e × (equal (path_of key) e.0 ≡ false)
          → Fits path_of waiting' files' e
      step e ((g, alone, of_key), n) = (f e.0 n ∙ g, λ k q. w k (other k q) ∙ alone k q, of_key)
        where
          other : (k : Str) → path_of k ≡ e.0 → equal key k ≡ false
          other k q = elim (Bool-cases (equal key k)) [
            | inl y ↦ absurd (clash ((equal_iff key k).0 y))
            | inr d ↦ d
          ]
            where
              clash : key ≡ k → ⊥
              clash y = ground (arith, (equal_iff (path_of key) e.0).1 (ap path_of y ∙ q))

module _ {A : Type 0} (path_of : Str → Str) (cfg : CacheConfig) where
  pub save_full-Coherent :
      (key : Str) (b : Bucket A) (t : ℕ) (db : Database A)
      → IsCoherent path_of db
      → IsCoherent path_of (save_full path_of cfg key b t db)
  unfolding save_full
  save_full-Coherent key b t db h =
      let d : DirtyEntry A = record { bucket = b; updated_at = t } in
      drop-Fits path_of key (λ k. has k db.dirty_buckets) (λ k. has k (put key d db.dirty_buckets))
        db.files db.files db.cache (λ k n. has-put key k d db.dirty_buckets ∙ rw n refl)
        (λ p n. refl) h

  pub save_empty-Coherent :
      (key : Str) (writes : Bool) (db : Database A)
      → IsCoherent path_of db
      → IsCoherent path_of (save_empty path_of cfg key writes db)
  unfolding save_empty
  save_empty-Coherent key true db h =
      drop-Fits path_of key (λ k. has k db.dirty_buckets) (λ k. has k (remove key db.dirty_buckets))
        db.files (put (path_of key) (good []) db.files) db.cache
        (λ k n. has-remove key k db.dirty_buckets ∙ rw n refl)
        (λ p n. find-put (path_of key) p (good []) db.files ∙ rw n refl) h
  save_empty-Coherent key false db h =
      drop-Fits path_of key (λ k. has k db.dirty_buckets) (λ k. has k (remove key db.dirty_buckets))
        db.files db.files db.cache (λ k n. has-remove key k db.dirty_buckets ∙ rw n refl)
        (λ p n. refl) h

-- What a fresh read of each key gives, once a bucket is saved.
abbrev pub set_read : {A : Type 0} → Str → Read A → (Str → Read A) → Str → Read A
set_read key r v k = if equal key k then r else v k

module _ {A : Type 0} (path_of : Str → Str) (cfg : CacheConfig) (inj : IsInjective path_of) where
  abbrev pub seen : Database A → Str → Read A
  seen db k = open_read_no_cache path_of cfg k db

  pub same-seen :
      (db db' : Database A)
      → IsSameButCache path_of cfg inj db db'
      → (k : Str) → seen db' k ≡ seen db k
  unfolding open_read_no_cache open_read_path find
  same-seen db db' h k = ap (λ (x : Database A). seen x k) h

  save_full-seen :
      (key : Str) (b : Bucket A) (t : ℕ) (db : Database A) (k : Str)
      → seen (save_full path_of cfg key b t db) k ≡ set_read key (opened b) (seen db) k
  unfolding save_full open_read_no_cache open_read_path
  save_full-seen key b t db k = elim (Bool-cases (equal key k)) [
    | inl y ↦ rw (find-put key k d db.dirty_buckets, y) refl
    | inr n ↦ rw (find-put key k d db.dirty_buckets, n) refl
  ]
    where
      d : DirtyEntry A
      d = record { bucket = b; updated_at = t }

  save_empty-seen :
      (key : Str) (db : Database A) (k : Str)
      → seen (save_empty path_of cfg key true db) k ≡ set_read key (opened []) (seen db) k
  unfolding save_empty open_read_no_cache open_read_path
  save_empty-seen key db k = elim (Bool-cases (equal key k)) [
    | inl y ↦
        rw
          (
            find-remove key k db.dirty_buckets,
            y,
            find-put (path_of key) (path_of k) (good []) db.files,
            (equal_iff key k).0 y,
            equal_refl (path_of k),
          )
          refl
    | inr n ↦ elim (Option-cases (find k db.dirty_buckets)) [
      | inl e ↦
          rw
            (
              find-remove key k db.dirty_buckets,
              n,
              e,
              find-put (path_of key) (path_of k) (good []) db.files,
              apart path_of inj key k n,
            )
            refl
      | inr (d, e) ↦ rw (find-remove key k db.dirty_buckets, n, e) refl
    ]
  ]

  -- `saveBucketInternal`, whichever branch the bucket takes.
  save_by_length-Saves :
      (key : Str) (b : Bucket A) (t : ℕ) (writes : Bool) (db : Database A)
      → IsCoherent path_of db
      → writes || not (length b == 0) ≡ true
      → IsCoherent path_of (save_by_length path_of cfg key b t writes db)
        × ((k : Str)
            → seen (save_by_length path_of cfg key b t writes db) k
              ≡ set_read key (opened b) (seen db) k)
  save_by_length-Saves key [] t true db h w =
      (save_empty-Coherent path_of cfg key true db h, save_empty-seen key db)
  save_by_length-Saves key [] t false db h w = absurd (clash w)
    where
      clash : false ≡ true → ⊥
      clash c = ground arith
  save_by_length-Saves key (e ∷ b) t writes db h w =
      (save_full-Coherent path_of cfg key (e ∷ b) t db h, save_full-seen key (e ∷ b) t db)

  audited_lem :
      (audits : Bool) (key : Str) (now : ℕ) (db : Database A)
      → IsCoherent path_of db
      → IsCoherent path_of (audited path_of cfg audits key now db)
        × ((k : Str) → seen (audited path_of cfg audits key now db) k ≡ seen db k)
  audited_lem true key now db h =
      let (c, v, s) = open_read_lem path_of cfg inj key now db h in
      (c, same-seen db (open_read path_of cfg key now db).1 s)
  audited_lem false key now db h = (h, λ k. refl)

  pub save_bucket_internal-Saves :
      (audits writes : Bool) (key : Str) (b : Bucket A) (t now : ℕ) (db : Database A)
      → IsCoherent path_of db
      → is_empty (trim_space key) ≡ false
      → writes || not (length b == 0) ≡ true
      → IsCoherent path_of (save_bucket_internal path_of cfg audits writes key b t now db)
        × ((k : Str)
            → seen (save_bucket_internal path_of cfg audits writes key b t now db) k
              ≡ set_read key (opened b) (seen db) k)
  unfolding save_bucket_internal
  save_bucket_internal-Saves audits writes key b t now db h n w =
      let (h1, v1) = audited_lem audits key now db h in
      let db1 : Database A = audited path_of cfg audits key now db in
      let (h2, v2) = save_by_length-Saves key b (if t == 0 then now else t) writes db1 h1 w in
      rw n (h2, λ k. v2 k ∙ ap (λ (x : Read A). if equal key k then opened b else x) (v1 k))
