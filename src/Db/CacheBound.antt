-- ===== src/Db/CacheBound.antt =====
-- filedb/evercache.go: how many buckets the cache holds.
use jacred_go.Base.{
  ℕ, zero, suc, ◌≤◌, ◌<◌, true, ◌&&◌, List, [], ◌∷◌, Str, equal, equal_refl, ltb, leb, ◌≡◌, refl,
  inl, inr, arith, Bool-cases, length, take, map, All,
}
use jacred_go.Base.Dict.{find, put, remove, has, has_cons}
use jacred_go.Db.State.{Bucket, CachedBucket, CacheConfig}
use jacred_go.Db.Cache.{
  ec_enabled, insert_by_access, by_access, remove_all, evict_oldest, drop_count, ec_put,
}
use jacred_go.Db.CacheEntries.{All-map}

length-put :
    {V : Type 0} (k : Str) (v : V) (m : List (Str × V)) → length (put k v m) ≤ suc (length m)
unfolding put
length-put k v [] = omega arith
length-put k v ((j, w) ∷ m) = elim (Bool-cases (equal j k)) [
  | inl y ↦ rw y (omega arith)
  | inr n ↦ rw n (omega (arith, length-put k v m))
]

length-put-pos : {V : Type 0} (k : Str) (v : V) (m : List (Str × V)) → 0 < length (put k v m)
unfolding put
length-put-pos k v [] = omega arith
length-put-pos k v ((j, w) ∷ m) = elim (Bool-cases (equal j k)) [
  | inl y ↦ rw y (omega arith)
  | inr n ↦ rw n (omega arith)
]

length-remove : {V : Type 0} (k : Str) (m : List (Str × V)) → length (remove k m) ≤ length m
unfolding remove
length-remove k [] = omega arith
length-remove k ((j, w) ∷ m) = elim (Bool-cases (equal j k)) [
  | inl y ↦ rw y (omega (arith, length-remove k m))
  | inr n ↦ rw n (omega (arith, length-remove k m))
]

length-remove-has :
    {V : Type 0} (k : Str) (m : List (Str × V)) → has k m ≡ true → length (remove k m) < length m
unfolding remove find
length-remove-has k [] h = ground arith
length-remove-has k ((j, w) ∷ m) h = elim (Bool-cases (equal j k)) [
  | inl y ↦ rw y (omega (arith, length-remove k m))
  | inr n ↦
      let rest : has k m ≡ true = ground (arith, has_cons j k w m) in
      rw n (omega (arith, length-remove-has k m rest))
]

own_keys : {V : Type 0} (m : List (Str × V)) → All (λ e. has e.0 m ≡ true) m
own_keys [] = tt
own_keys {V} ((j, w) ∷ m) = (
  ground (arith, has_cons j j w m, equal_refl j),
  All-map (λ (e : Str × V). has e.0 m ≡ true) (λ (e : Str × V). has e.0 ((j, w) ∷ m) ≡ true)
      (λ e h. ground (arith, has_cons j e.0 w m)) m (own_keys m),
)

module _ {A : Type 0} (cfg : CacheConfig) where
  module _ (P : Str × CachedBucket A → Type 0) where
    insert_by_access-All :
        (e : Str × CachedBucket A) (c : List (Str × CachedBucket A))
        → P e
        → All P c
        → All P (insert_by_access cfg e c)
    unfolding insert_by_access
    insert_by_access-All e [] p h = (p, tt)
    insert_by_access-All e (f ∷ c) p (h, hs) =
        elim (Bool-cases (leb e.1.accessed_at f.1.accessed_at)) [
          | inl y ↦ rw y (p, (h, hs))
          | inr n ↦ rw n (h, insert_by_access-All e c p hs)
        ]

    by_access-All : (c : List (Str × CachedBucket A)) → All P c → All P (by_access cfg c)
    unfolding by_access
    by_access-All [] h = tt
    by_access-All (e ∷ c) (h, hs) = insert_by_access-All e (by_access cfg c) h (by_access-All c hs)

  length-insert_by_access :
      (e : Str × CachedBucket A) (c : List (Str × CachedBucket A))
      → length (insert_by_access cfg e c) ≡ suc (length c)
  unfolding insert_by_access
  length-insert_by_access e [] = refl
  length-insert_by_access e (f ∷ c) = elim (Bool-cases (leb e.1.accessed_at f.1.accessed_at)) [
    | inl y ↦ rw y refl
    | inr n ↦ rw n (omega (arith, length-insert_by_access e c))
  ]

  length-by_access : (c : List (Str × CachedBucket A)) → length (by_access cfg c) ≡ length c
  unfolding by_access
  length-by_access [] = refl
  length-by_access (e ∷ c) =
      omega (arith, length-insert_by_access e (by_access cfg c), length-by_access c)

  length-remove_all :
      (ps : List Str) (c : List (Str × CachedBucket A)) → length (remove_all cfg ps c) ≤ length c
  unfolding remove_all
  length-remove_all [] c = omega arith
  length-remove_all (p ∷ ps) c = omega (arith, length-remove_all ps (remove p c), length-remove p c)

  -- The oldest entry at least is evicted.
  evict_oldest-lt :
      (n : ℕ) (c : List (Str × CachedBucket A))
      → 0 < n
      → 0 < length c
      → length (evict_oldest cfg n c) < length c
  unfolding evict_oldest remove_all
  evict_oldest-lt n c pos_n pos_c =
      go n (by_access cfg c) pos_n (omega (arith, length-by_access c))
        (by_access-All (λ e. has e.0 c ≡ true) c (own_keys c))
    where
      go :
          (n : ℕ) (s : List (Str × CachedBucket A))
          → 0 < n
          → 0 < length s
          → All (λ e. has e.0 c ≡ true) s
          → length (remove_all cfg (map (λ (e : Str × CachedBucket A). e.0) (take n s)) c)
            < length c
      go zero s pn ps h = ground arith
      go (suc n) [] pn ps h = ground arith
      go (suc n) (e ∷ s) pn ps (h, hs) = omega (
        arith,
        length-remove_all (map (λ (f : Str × CachedBucket A). f.0) (take n s)) (remove e.0 c),
        length-remove-has e.0 c h,
      )

  -- A cache that holds no more buckets than the limit, if there is one, holds no more when `ecPut` is done,
  -- whatever the number that an eviction is told to drop.
  pub ec_put-bounded :
      (path : Str) (b : Bucket A) (now : ℕ) (c : List (Str × CachedBucket A))
      → 0 < cfg.max_open
      → length c ≤ cfg.max_open
      → length (ec_put cfg path b now c) ≤ cfg.max_open
  unfolding ec_put
  ec_put-bounded path b now c limit fits = elim (Bool-cases (ec_enabled cfg)) [
    | inr off ↦ rw off fits
    | inl on ↦
        rw on (elim (Bool-cases (ltb 0 cfg.max_open && ltb cfg.max_open (length (put path e c)))) [
          | inl over ↦ rw over (
              ground (
                arith,
                evict_oldest-lt (drop_count cfg) (put path e c) some_dropped nonempty,
                length-put path e c,
              ))
          | inr under ↦ rw under (ground arith)
        ])
  ]
    where
      e : CachedBucket A
      e = record { bucket = b; accessed_at = now }

      some_dropped : 0 < drop_count cfg
      some_dropped = ground arith

      nonempty : 0 < length (put path e c)
      nonempty = length-put-pos path e c
