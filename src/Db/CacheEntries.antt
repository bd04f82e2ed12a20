-- ===== src/Db/CacheEntries.antt =====
-- filedb/evercache.go: what holds of every entry of the cache of buckets, through its operations.
use jacred_go.Base.{
  ℕ, ◌+◌, false, ◌&&◌, List, [], ◌∷◌, Option, none, some, Str, equal, equal_iff, ltb, leb, ◌≡◌,
  refl, sym, ◌∙◌, inl, inr, arith, if◌then◌else◌, Bool-cases, All, map, take, length,
}
use jacred_go.Base.Dict.{find, put, remove}
use jacred_go.Db.State.{Bucket, CachedBucket, CacheConfig}
use jacred_go.Db.Cache.{
  ec_enabled, outdated, remove_all, by_access, evict_oldest, evict_overflow, drop_count, ec_put,
  evict_stale, evict_cache,
}

module _ {ℓ κ} {V : Type ℓ} (P : Str × V → Type κ) where
  pub All-find : (k : Str) (v : V) (m : List (Str × V)) → All P m → find k m ≡ some v → P (k, v)
  unfolding find
  All-find k v [] h e = absurd (none-ne e)
    where
      none-ne : ◌≡◌ {A = Option V} none (some v) → ⊥
      none-ne d = ground arith
  All-find k v ((j, w) ∷ m) (h, hs) e = elim (Bool-cases (equal j k)) [
    | inl y ↦
        let first : (if equal j k then some w else find k m) ≡ some w = rw y refl in
        let d : w ≡ v = ground (arith, first, e) in rw (← (equal_iff j k).0 y, ← d) h
    | inr n ↦
        let rest : (if equal j k then some w else find k m) ≡ find k m = rw n refl in
        All-find k v m hs (sym rest ∙ e)
  ]

  pub All-put : (k : Str) (v : V) (m : List (Str × V)) → P (k, v) → All P m → All P (put k v m)
  unfolding put
  All-put k v [] p h = (p, tt)
  All-put k v ((j, w) ∷ m) p (h, hs) = elim (Bool-cases (equal j k)) [
    | inl y ↦ rw (y, (equal_iff j k).0 y) (p, hs)
    | inr n ↦ rw n (h, All-put k v m p hs)
  ]

  pub All-remove : (k : Str) (m : List (Str × V)) → All P m → All P (remove k m)
  unfolding remove
  All-remove k [] h = h
  All-remove k ((j, w) ∷ m) (h, hs) = elim (Bool-cases (equal j k)) [
    | inl y ↦ rw y (All-remove k m hs)
    | inr n ↦ rw n (h, All-remove k m hs)
  ]

module _ {ℓ} {V : Type ℓ} where
  -- An entry that is left by a removal stands under another key.
  pub remove-Others : (k : Str) (m : List (Str × V)) → All (λ e. equal k e.0 ≡ false) (remove k m)
  unfolding remove
  remove-Others k [] = tt
  remove-Others k ((j, w) ∷ m) = elim (Bool-cases (equal j k)) [
    | inl y ↦ rw y (remove-Others k m)
    | inr n ↦
        let d : equal k j ≡ false = ground (arith, equal_iff k j, equal_iff j k) in
        rw n (d, remove-Others k m)
  ]

module _ {ℓ κ μ} {V : Type ℓ} (P : Str × V → Type κ) (Q : Str × V → Type μ) where
  pub All-map : ((e : Str × V) → P e → Q e) → (m : List (Str × V)) → All P m → All Q m
  All-map f [] h = tt
  All-map f (e ∷ m) (h, hs) = (f e h, All-map f m hs)

  pub All-both : (m : List (Str × V)) → All P m → All Q m → All (λ e. P e × Q e) m
  All-both [] h k = tt
  All-both (e ∷ m) (h, hs) (k, ks) = ((h, k), All-both m hs ks)

module _ {κ} {A : Type 0} (cfg : CacheConfig) (P : Str × CachedBucket A → Type κ) where
  All-remove_all :
      (ps : List Str) (c : List (Str × CachedBucket A)) → All P c → All P (remove_all cfg ps c)
  unfolding remove_all
  All-remove_all [] c h = h
  All-remove_all (p ∷ ps) c h = All-remove_all ps (remove p c) (All-remove P p c h)

  All-evict_overflow : (c : List (Str × CachedBucket A)) → All P c → All P (evict_overflow cfg c)
  unfolding evict_oldest
  All-evict_overflow c h = elim (Bool-cases (ltb 0 cfg.max_open && ltb cfg.max_open (length c))) [
    | inl y ↦ rw y (
        All-remove_all
          (map (λ (e : Str × CachedBucket A). e.0) (take (drop_count cfg) (by_access cfg c))) c h)
    | inr n ↦ rw n h
  ]

  pub All-ec_put :
      (path : Str) (b : Bucket A) (now : ℕ) (c : List (Str × CachedBucket A))
      → P (path, record { bucket = b; accessed_at = now })
      → All P c
      → All P (ec_put cfg path b now c)
  unfolding ec_put
  All-ec_put path b now c p h = elim (Bool-cases (ec_enabled cfg)) [
    | inl y ↦
        let e : CachedBucket A = record { bucket = b; accessed_at = now } in
        rw y (All-evict_overflow (put path e c) (All-put P path e c p h))
    | inr n ↦ rw n h
  ]

  All-evict_stale :
      (n now taken : ℕ) (c : List (Str × CachedBucket A))
      → All P c
      → All P (evict_stale cfg n now taken c).0
  unfolding evict_stale
  All-evict_stale n now taken [] h = h
  All-evict_stale n now taken (e ∷ c) (h, hs) = elim (Bool-cases (ltb 0 n && leb n taken)) [
    | inl y ↦ rw y (h, hs)
    | inr d ↦ elim (Bool-cases (outdated cfg now e.1)) [
      | inl y ↦ rw (d, y) (All-evict_stale n now (taken + 1) c hs)
      | inr f ↦ rw (d, f) (h, All-evict_stale n now taken c hs)
    ]
  ]

  pub All-evict_cache :
      (n now : ℕ) (c : List (Str × CachedBucket A)) → All P c → All P (evict_cache cfg n now c).0
  unfolding evict_cache
  All-evict_cache n now c h = elim (Bool-cases (ec_enabled cfg)) [
    | inl y ↦ rw y (All-evict_stale n now 0 c h)
    | inr d ↦ rw d h
  ]
