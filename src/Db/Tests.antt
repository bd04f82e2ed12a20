-- ===== src/Db/Tests.antt =====
-- Runs of the database of filedb/ at concrete inputs.
use jacred_go.Base.{
  ℕ, ◌+◌, ◌-◌, ◌≤◌, Bool, true, false, ◌&&◌, [], ◌∷◌, ◌++◌, codes, none, some, Str, equal,
  equal_iff, leb, leb→le, ◌≡◌, refl, ap, sym, ◌∙◌, inl, inr, arith, Bool-cases, length,
}
use jacred_go.Base.Dict.{find, has}
use jacred_go.Base.Trim.{trim_space}
use jacred_go.Db.State.{Bucket, damaged, good, bad, CacheConfig, DirtyEntry, Database}
use jacred_go.Db.Cache.{ec_put}
use jacred_go.Db.Reads.{
  Read, opened, open_read, open_read_path, open_read_no_cache, open_read_or_empty, renamed,
}
use jacred_go.Db.Writes.{save_bucket_internal, flush_dirty_buckets}
use jacred_go.Db.Rebuild.{rebuild_indexes}
use jacred_go.Db.Coherent.{IsInjective}
use jacred_go.Db.Saved.{set_read}
use jacred_go.Db.Recovered.{IsClear, Recovers, open_read_or_empty-Recovers}
use jacred_go.Db.Flushes.{flush_dirty_buckets-Writes}
use jacred_go.Db.StaleRead.{read_in_flush, open_read-read_in_flush}
use jacred_go.Db.CacheBound.{ec_put-bounded}
use jacred_go.Db.Runs.{Run, started, saved, flushed, Run-open_read}

-- A path for every key: its bytes as letters.
unfoldable letters : Str → Str
letters [] = []
letters (c ∷ k) = (97 + c) ∷ letters k

key_of_letters : Str → Str
key_of_letters [] = []
key_of_letters (c ∷ p) = (c - 97) ∷ key_of_letters p

key_of_letters-letters : (k : Str) → key_of_letters (letters k) ≡ k
unfolding letters key_of_letters
key_of_letters-letters [] = refl
key_of_letters-letters (c ∷ k) = rw (key_of_letters-letters k) (ap (λ (x : ℕ). x ∷ k) (omega arith))

letters-IsInjective : IsInjective letters
letters-IsInjective j k e =
    sym (key_of_letters-letters j) ∙ ap key_of_letters e ∙ key_of_letters-letters k

all_letters : Str → Bool
all_letters [] = true
all_letters (c ∷ s) = leb 97 c && all_letters s

all_letters-letters : (k : Str) → all_letters (letters k) ≡ true
unfolding letters all_letters
all_letters-letters [] = refl
all_letters-letters (c ∷ k) = ground (arith, all_letters-letters k)

all_letters-suffix : (s : Str) → all_letters (s ++ codes ".corrupt") ≡ false
unfolding all_letters
all_letters-suffix [] = refl
all_letters-suffix (c ∷ s) = ground (arith, all_letters-suffix s)

letters-IsClear : IsClear letters
letters-IsClear j k = elim (Bool-cases (equal (letters j ++ codes ".corrupt") (letters k))) [
  | inl y ↦ absurd (
      clash (
        sym (all_letters-suffix (letters j))
        ∙ ap all_letters ((equal_iff (letters j ++ codes ".corrupt") (letters k)).0 y)
        ∙ all_letters-letters k))
  | inr n ↦ n
]
  where
    clash : false ≡ true → ⊥
    clash c = ground arith

abbrev an_hour_cached : CacheConfig
an_hour_cached = record { enable = true; valid = 3600; max_open = 0; drop_take = 0 }

abbrev dune : Str
dune = codes "dune:dune2021"

abbrev url : Str
url = codes "/t/1"

abbrev empty_db : Database Str
empty_db = record {
  master = [];
  fast = [];
  unsaved = false;
  dirty_buckets = [];
  cache = [];
  files = [];
}

abbrev first_db : Database Str
first_db = rebuild_indexes (λ (t : Str). t) (λ (t : Str). 0) none empty_db

abbrev one_torrent : Bucket Str
one_torrent = (url, codes "Dune") ∷ []

abbrev saved_db : Database Str
saved_db = save_bucket_internal letters an_hour_cached true true dune one_torrent 5 9 first_db

abbrev written_db : Database Str
written_db = (flush_dirty_buckets letters an_hour_cached (λ (k : Str). true) saved_db).0

abbrev at_first : Str → Read Str
at_first = λ (k : Str). open_read_path letters an_hour_cached (letters k) empty_db

a_run :
    Run letters an_hour_cached
      (λ (t : Str). t)
      (λ (t : Str). 0)
      (set_read dune (opened one_torrent) at_first)
      written_db
unfolding find rebuild_indexes trim_space
a_run =
    flushed (λ (k : Str). true)
      (saved true true dune one_torrent 5 9 refl refl
        (started none empty_db (refl, refl) (λ k h. absurd (clash h))))
  where
    clash : false ≡ true → ⊥
    clash c = ground arith

Run-open_read_example :
    (open_read letters an_hour_cached dune 10 written_db).0
    ≡ set_read dune (opened one_torrent) at_first dune
Run-open_read_example =
    Run-open_read letters an_hour_cached (λ t. t) (λ t. 0) letters-IsInjective letters-IsClear dune
      10 a_run

abbrev broken_db : Database Str
broken_db = record {
  master = [];
  fast = [];
  unsaved = false;
  dirty_buckets = [];
  cache = [];
  files = (letters dune, bad damaged) ∷ [];
}

open_read_or_empty-Recovers_example :
    Recovers letters an_hour_cached letters-IsInjective letters-IsClear dune renamed broken_db
      (open_read_or_empty letters an_hour_cached dune 3 renamed broken_db)
open_read_or_empty-Recovers_example =
    open_read_or_empty-Recovers letters an_hour_cached letters-IsInjective letters-IsClear dune 3
      renamed broken_db tt

-- A bucket that waits, over an older file.
abbrev waiting_db : Database Str
waiting_db = record {
  master = [];
  fast = [];
  unsaved = true;
  dirty_buckets = (dune, record { bucket = one_torrent; updated_at = 4 }) ∷ [];
  cache = [];
  files = (letters dune, good []) ∷ [];
}

flush_dirty_buckets-Writes_example :
    (has dune (flush_dirty_buckets letters an_hour_cached (λ k. true) waiting_db).0.dirty_buckets
      ≡ false)
    × (find
          (letters dune)
          (flush_dirty_buckets letters an_hour_cached (λ k. true) waiting_db).0.files
        ≡ some (good one_torrent))
unfolding find
flush_dirty_buckets-Writes_example =
    flush_dirty_buckets-Writes letters an_hour_cached letters-IsInjective (λ k. true) waiting_db
      dune (record { bucket = one_torrent; updated_at = 4 }) (refl, tt) tt refl

open_read-read_in_flush_example :
    let d : DirtyEntry Str = record { bucket = one_torrent; updated_at = 4 } in
    ((open_read letters an_hour_cached dune 60
        (read_in_flush letters an_hour_cached dune d 10 waiting_db)).0
      ≡ opened [])
    × (open_read_no_cache letters an_hour_cached dune
          (read_in_flush letters an_hour_cached dune d 10 waiting_db)
        ≡ opened one_torrent)
unfolding find letters
open_read-read_in_flush_example =
    open_read-read_in_flush letters an_hour_cached dune []
      (record { bucket = one_torrent; updated_at = 4 }) 10 60 waiting_db refl refl refl refl refl
      refl

ec_put-bounded_example :
    length (
      ec_put
        (record an_hour_cached { max_open = 1 })
        (codes "b")
        []
        8
        ((codes "a", record { bucket = one_torrent; accessed_at = 7 }) ∷ []))
    ≤ 1
ec_put-bounded_example =
    ec_put-bounded (record an_hour_cached { max_open = 1 }) (codes "b") [] 8
      ((codes "a", record { bucket = one_torrent; accessed_at = 7 }) ∷ []) (leb→le 1 1 refl)
      (leb→le 1 1 refl)
