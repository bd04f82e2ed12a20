-- ===== src/Db/Coherent.antt =====
-- filedb: the cache of buckets against the dirty buckets and the files, through each operation.
use jacred_go.Base.{
  ℕ, Bool, false, List, Option, none, some, Str, equal, equal_iff, ◌≡◌, ◌⊎◌, refl, ap, ◌∙◌, inl,
  inr, arith, Bool-cases, Option-cases, All,
}
use jacred_go.Base.Dict.{find, has}
use jacred_go.Db.State.{
  Bucket, ReadError, FileContent, good, bad, CachedBucket, CacheConfig, Database,
}
use jacred_go.Db.Cache.{ec_enabled, ec_get, outdated}
use jacred_go.Db.Reads.{
  content, open_read_path, cached_read, through_cache, open_read, open_read_no_cache,
}
use jacred_go.Db.CacheEntries.{All-find, All-put, All-ec_put}

abbrev pub Files : Type 0 → Type 0
Files A = List (Str × FileContent A)

module _ {A : Type 0} (path_of : Str → Str) where
  -- A cached bucket is what its file holds, and a key's file, with no bucket that waits to be written to it.
  abbrev pub Fits : (Str → Bool) → Files A → Str × CachedBucket A → Type 0
  Fits waiting files e =
      (find e.0 files ≡ some (good e.1.bucket))
      × ((k : Str) → path_of k ≡ e.0 → waiting k ≡ false)
      × ((k : Str) × (path_of k ≡ e.0))

  abbrev pub IsCoherent : Database A → Type 0
  IsCoherent db = All (Fits (λ k. has k db.dirty_buckets) db.files) db.cache

module _ {A : Type 0} (path_of : Str → Str) (cfg : CacheConfig) where
  -- What the cache can answer for a path.
  pub ec_get-Fits :
      (waiting : Str → Bool) (files : Files A) (path : Str) (now : ℕ)
      (c : List (Str × CachedBucket A))
      → All (Fits path_of waiting files) c
      → All (Fits path_of waiting files) (ec_get cfg path now c).1
        × ((b : Bucket A) → (ec_get cfg path now c).0 ≡ some b → find path files ≡ some (good b))
  unfolding ec_get
  ec_get-Fits waiting files path now c h = elim (Bool-cases (ec_enabled cfg)) [
    | inl y ↦ elim (Option-cases (find path c)) [
      | inl e ↦ rw (y, e) (h, λ b g. absurd (miss b g))
      | inr (v, e) ↦
          let f : Fits path_of waiting files (path, v) =
            All-find (Fits path_of waiting files) path v c h e in
          elim (Bool-cases (outdated cfg now v)) [
            | inl o ↦ rw (y, e, o) (h, λ b g. absurd (miss b g))
            | inr o ↦
                rw (y, e, o)
                  (
                    All-put (Fits path_of waiting files) path (record v { accessed_at = now }) c f
                        h,
                    λ b g. f.0 ∙ ap (λ (x : Bucket A). some (good x)) (same_bucket v.bucket b g),
                  )
          ]
    ]
    | inr n ↦ rw n (h, λ b g. absurd (miss b g))
  ]
    where
      miss : (b : Bucket A) → ◌≡◌ {A = Option (Bucket A)} none (some b) → ⊥
      miss b g = ground arith

      same_bucket : (a b : Bucket A) → some a ≡ some b → a ≡ b
      same_bucket a b g = cc

-- No two keys share a file.
abbrev pub IsInjective : (Str → Str) → Type 0
IsInjective path_of = (j k : Str) → path_of j ≡ path_of k → j ≡ k

pub apart :
    (path_of : Str → Str)
    → IsInjective path_of
    → (j k : Str) → equal j k ≡ false
    → equal (path_of j) (path_of k) ≡ false
apart path_of inj j k n = elim (Bool-cases (equal (path_of j) (path_of k))) [
  | inl y ↦ absurd (clash (inj j k ((equal_iff (path_of j) (path_of k)).0 y)))
  | inr d ↦ d
]
  where
    clash : j ≡ k → ⊥
    clash y = ground (arith, (equal_iff j k).1 y)

module _ {A : Type 0} (path_of : Str → Str) (cfg : CacheConfig) (inj : IsInjective path_of) where
  -- The two databases differ in the cache alone.
  abbrev pub IsSameButCache : Database A → Database A → Type 0
  IsSameButCache db db' = db' ≡ (record db { cache = db'.cache })

  cached_read-Coherent :
      (key : Str) (now : ℕ) (db : Database A) (c : List (Str × CachedBucket A))
      (f : Option (FileContent A))
      → find key db.dirty_buckets ≡ none
      → find (path_of key) db.files ≡ f
      → All (Fits path_of (λ k. has k db.dirty_buckets) db.files) c
      → IsCoherent path_of
          (cached_read path_of cfg
            (path_of key)
            now
            (record db { cache = c })
            (content path_of cfg f)).1
  unfolding find
  cached_read-Coherent key now db c none clean e h = h
  cached_read-Coherent key now db c (some (bad x)) clean e h = h
  cached_read-Coherent key now db c (some (good b)) clean e h =
      All-ec_put cfg (Fits path_of (λ k. has k db.dirty_buckets) db.files) (path_of key) b now c
        (e, alone, (key, refl)) h
    where
      alone : (k : Str) → path_of k ≡ path_of key → has k db.dirty_buckets ≡ false
      alone k g = rw (inj k key g, clean) refl

  through_cache-Coherent :
      (key : Str) (now : ℕ) (db : Database A) (r : Option (Bucket A) × List (Str × CachedBucket A))
      → find key db.dirty_buckets ≡ none
      → All (Fits path_of (λ k. has k db.dirty_buckets) db.files) r.1
      → ((b : Bucket A) → r.0 ≡ some b → find (path_of key) db.files ≡ some (good b))
      → IsCoherent path_of (through_cache path_of cfg (path_of key) now db r).1
        × ((through_cache path_of cfg (path_of key) now db r).0
            ≡ open_read_path path_of cfg (path_of key) db)
        × IsSameButCache db (through_cache path_of cfg (path_of key) now db r).1
  unfolding open_read_path
  through_cache-Coherent key now db (some b, c) clean h hit = (h, rw (hit b refl) refl, refl)
  through_cache-Coherent key now db (none, c) clean h hit =
      elim (cases (find (path_of key) db.files)) [
        | inl e ↦ rw e (h, refl, refl)
        | inr (inl (x, e)) ↦ rw e (h, refl, refl)
        | inr (inr (b, e)) ↦
            rw e (cached_read-Coherent key now db c (some (good b)) clean e h, refl, refl)
      ]
    where
      cases :
          (f : Option (FileContent A))
          → (f ≡ none)
            ⊎ (((x : ReadError) × (f ≡ some (bad x))) ⊎ ((b : Bucket A) × (f ≡ some (good b))))
      cases none = inl refl
      cases (some (bad x)) = inr (inl (x, refl))
      cases (some (good b)) = inr (inr (b, refl))

  -- A read through the cache.
  pub open_read_lem :
      (key : Str) (now : ℕ) (db : Database A)
      → IsCoherent path_of db
      → IsCoherent path_of (open_read path_of cfg key now db).1
        × ((open_read path_of cfg key now db).0 ≡ open_read_no_cache path_of cfg key db)
        × IsSameButCache db (open_read path_of cfg key now db).1
  unfolding open_read open_read_no_cache
  open_read_lem key now db h = elim (Option-cases (find key db.dirty_buckets)) [
    | inl e ↦
        let (fits, hit) =
          ec_get-Fits path_of cfg (λ k. has k db.dirty_buckets) db.files (path_of key) now db.cache
            h in
        rw e (through_cache-Coherent key now db (ec_get cfg (path_of key) now db.cache) e fits hit)
    | inr (d, e) ↦ rw e (h, refl, refl)
  ]
