-- ===== src/Cache/Bounded.antt =====
-- server/cache.go: the cap is kept, and an entry is found while it lives.
use jacred_go.Base.{
  ℕ, ◌+◌, ◌-◌, ◌≤◌, ◌<◌, ◌≡◌, refl, ◌∙◌, false, not, List, [], ◌∷◌, Option, none, some, Str, equal,
  equal_refl, ltb, leb, length, length-keep-le, Bool-cases, inl, inr, arith,
}
use jacred_go.Cache.Search.{
  CacheEntry, SearchCache, new_search_cache, expired, lookup, get_entry, cache_get, evict,
  target_size, evict_if_full, make_room, put_entry, cache_set, invalidate,
}

abbrev pub IsBounded : SearchCache → Type 0
IsBounded c = length c.entries ≤ c.max_size

length-evict : (target : ℕ) (es : List CacheEntry) → length (evict target es) ≤ target
unfolding evict
length-evict target [] = omega arith
length-evict target (e ∷ es) = ground (arith, length-evict target es)

length-put_entry : (n : CacheEntry) (es : List CacheEntry) → length (put_entry n es) ≤ length es + 1
unfolding put_entry
length-put_entry n [] = omega arith
length-put_entry n (e ∷ es) = ground (arith, length-put_entry n es)

length-evict_if_full :
    (max_size : ℕ) (es : List CacheEntry)
    → 10 ≤ max_size
    → length (evict_if_full max_size es) < max_size
length-evict_if_full max_size es h = elim (Bool-cases (leb max_size (length es))) [
  | inl y ↦ rw y (omega (arith, length-evict (target_size max_size) es))
  | inr n ↦ rw n (ground arith)
]

length-make_room :
    (now : ℕ) (c : SearchCache) → 10 ≤ c.max_size → length (make_room now c) < c.max_size
unfolding make_room
length-make_room now c h = elim (Bool-cases (leb c.max_size (length c.entries))) [
  | inl y ↦ rw y (length-evict_if_full c.max_size _ h)
  | inr n ↦ rw n (ground arith)
]

cache_set-IsBounded :
    (k payload : Str) (now created : ℕ) (c : SearchCache)
    → 10 ≤ c.max_size
    → IsBounded (cache_set k payload now created c)
unfolding cache_set
cache_set-IsBounded k payload now created c h = omega (
  arith,
  length-make_room now c h,
  length-put_entry (record { key = k; payload = payload; created = created }) (make_room now c),
)

cache_get-IsBounded :
    (k : Str) (now : ℕ) (c : SearchCache) → IsBounded c → IsBounded (cache_get k now c).1
unfolding cache_get
cache_get-IsBounded k now c h = found (lookup k c.entries)
  where
    found : (o : Option CacheEntry) → IsBounded (get_entry k now c o).1
    found none = h
    found (some e) = elim (Bool-cases (expired c.ttl now e)) [
      | inl y ↦ rw y (omega (arith, length-keep-le (λ e. not (equal e.key k)) c.entries))
      | inr n ↦ rw n h
    ]

max_size-cache_get :
    (k : Str) (now : ℕ) (c : SearchCache) → (cache_get k now c).1.max_size ≡ c.max_size
unfolding cache_get
max_size-cache_get k now c = found (lookup k c.entries)
  where
    found : (o : Option CacheEntry) → (get_entry k now c o).1.max_size ≡ c.max_size
    found none = refl
    found (some e) = elim (Bool-cases (expired c.ttl now e)) [
      | inl y ↦ rw y refl
      | inr n ↦ rw n refl
    ]

max_size-cache_set :
    (k payload : Str) (now created : ℕ) (c : SearchCache)
    → (cache_set k payload now created c).max_size ≡ c.max_size
unfolding cache_set
max_size-cache_set k payload now created c = refl

-- The operations of a cache, one after the other.
pub data Uses (ttl max_size : ℕ) : SearchCache → Type 0 where
  fresh : Uses ttl max_size (new_search_cache ttl max_size)
  gets :
      (k : Str) (now : ℕ) {c : SearchCache}
      → Uses ttl max_size c
      → Uses ttl max_size (cache_get k now c).1
  sets :
      (k payload : Str) (now created : ℕ) {c : SearchCache}
      → Uses ttl max_size c
      → Uses ttl max_size (cache_set k payload now created c)
  invalidates : {c : SearchCache} → Uses ttl max_size c → Uses ttl max_size (invalidate c)

-- With a cap of 10 or more, no sequence of uses of a new cache makes it hold more entries than the cap.
pub Uses-IsBounded :
    {ttl max_size : ℕ} {c : SearchCache}
    → 10 ≤ max_size
    → Uses ttl max_size c
    → (c.max_size ≡ max_size) × IsBounded c
Uses-IsBounded h fresh = (refl, omega arith)
Uses-IsBounded h (gets k now {c} u) =
    let (e, b) = Uses-IsBounded h u in
    (max_size-cache_get k now c ∙ e, cache_get-IsBounded k now c b)
Uses-IsBounded h (sets k payload now created {c} u) =
    let (e, b) = Uses-IsBounded h u in
    (
      max_size-cache_set k payload now created c ∙ e,
      cache_set-IsBounded k payload now created c (omega (arith, e)),
    )
Uses-IsBounded h (invalidates u) = let (e, b) = Uses-IsBounded h u in (e, omega arith)

lookup-put_entry : (n : CacheEntry) (es : List CacheEntry) → lookup n.key (put_entry n es) ≡ some n
unfolding lookup put_entry
lookup-put_entry n [] = rw (equal_refl n.key) refl
lookup-put_entry n (e ∷ es) = elim (Bool-cases (equal e.key n.key)) [
  | inl y ↦ rw (y, equal_refl n.key) refl
  | inr d ↦ rw (d, d) (lookup-put_entry n es)
]

-- An answer that was just stored, whatever had to make room for it, is what a request for its key is
-- given within the time to live, and no entry is changed by that request.
pub cache_get-cache_set :
    (k payload : Str) (now created later : ℕ) (c : SearchCache)
    → later - created ≤ c.ttl
    → let d = cache_set k payload now created c in cache_get k later d ≡ (some payload, d)
unfolding cache_get cache_set
cache_get-cache_set k payload now created later c h =
    let e : CacheEntry = record { key = k; payload = payload; created = created } in
    rw (lookup-put_entry e (make_room now c)) (rw (alive (later - created) c.ttl h) refl)
  where
    alive : (a t : ℕ) → a ≤ t → ltb t a ≡ false
    alive a t h = ground arith
