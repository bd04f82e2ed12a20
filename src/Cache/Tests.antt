-- ===== src/Cache/Tests.antt =====
-- server/cache.go on a cache of ten entries.
use jacred_go.Base.{◌≡◌, refl, some, codes, leb→le}
use jacred_go.Cache.Search.{SearchCache, new_search_cache, cache_get, cache_set}
use jacred_go.Cache.Bounded.{IsBounded, Uses, fresh, sets, Uses-IsBounded, cache_get-cache_set}

abbrev small : SearchCache
small = cache_set (codes "a") (codes "x") 1 1 (new_search_cache 5 10)

small-Uses : Uses 5 10 small
small-Uses = sets (codes "a") (codes "x") 1 1 fresh

Uses-IsBounded_example : (small.max_size ≡ 10) × IsBounded small
Uses-IsBounded_example = Uses-IsBounded (leb→le 10 10 refl) small-Uses

cache_get-cache_set_example :
    let d = cache_set (codes "b") (codes "y") 2 3 (new_search_cache 5 10) in
    cache_get (codes "b") 8 d ≡ (some (codes "y"), d)
cache_get-cache_set_example =
    cache_get-cache_set (codes "b") (codes "y") 2 3 8 (new_search_cache 5 10) (leb→le 5 5 refl)
