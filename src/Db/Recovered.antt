-- ===== src/Db/Recovered.antt =====
-- filedb/writebucket.go: what `OpenReadOrEmpty` gives, and what it leaves, where a bucket cannot be read.
use jacred_go.Base.{
  ℕ, Bool, true, false, [], ◌++◌, codes, Option, none, some, Str, equal, equal_iff, equal_refl, ◌≡◌,
  refl, ap, sym, ◌∙◌, inl, inr, if◌then◌else◌, Bool-cases, Option-cases,
}
use jacred_go.Base.Dict.{find, put, remove, has, find-put, find-remove}
use jacred_go.Db.State.{
  Bucket, not_exist, damaged, other_error, FileContent, good, bad, CachedBucket, CacheConfig,
  Database,
}
use jacred_go.Db.Reads.{
  Move, renamed, removed, kept, Read, opened, failed, content, open_read, open_read_path,
  open_read_no_cache, quarantine, or_empty_bucket, open_read_or_empty,
}
use jacred_go.Db.CacheEntries.{All-map}
use jacred_go.Db.Coherent.{Files, Fits, IsCoherent, IsInjective, apart, open_read_lem}
use jacred_go.Db.Saved.{set_read, seen, same-seen}

-- No key's path is another one's with the suffix of a quarantined file.
abbrev pub IsClear : (Str → Str) → Type 0
IsClear path_of = (j k : Str) → equal (path_of j ++ codes ".corrupt") (path_of k) ≡ false

-- What is given for a read: a missing or a damaged file counts as an empty bucket.
abbrev pub or_empty : {A : Type 0} → Read A → Read A
or_empty (opened b) = opened b
or_empty (failed not_exist) = opened []
or_empty (failed damaged) = opened []
or_empty (failed other_error) = failed other_error

abbrev pub is_gone : Move → Bool
is_gone renamed = true
is_gone removed = true
is_gone kept = false

-- What is left of it: a damaged file is no longer there, if it could be moved or removed.
abbrev pub left_of : {A : Type 0} → Move → Read A → Read A
left_of move (opened b) = opened b
left_of move (failed not_exist) = failed not_exist
left_of move (failed damaged) = if is_gone move then failed not_exist else failed damaged
left_of move (failed other_error) = failed other_error

module _ {A : Type 0} (path_of : Str → Str) (cfg : CacheConfig) (inj : IsInjective path_of)
    (clear : IsClear path_of) where
  -- A read that is set to what it is already.
  set_same :
      (key : Str) (r : Read A) (v : Str → Read A) → v key ≡ r → (k : Str) → v k ≡ set_read key r v k
  set_same key r v e k = elim (Bool-cases (equal key k)) [
    | inl y ↦ rw (y, ← (equal_iff key k).0 y) e
    | inr n ↦ rw n refl
  ]

  -- The files of a database with one quarantined.
  abbrev without_file : Str → Move → Files A → Files A
  without_file path renamed files = put (path ++ codes ".corrupt") (bad damaged) (remove path files)
  without_file path removed files = remove path files
  without_file path kept files = files

  find-without_file :
      (key : Str) (move : Move) (files : Files A) (k : Str)
      → is_gone move ≡ true
      → find (path_of k) (without_file (path_of key) move files)
        ≡ (if equal (path_of key) (path_of k) then none else find (path_of k) files)
  find-without_file key renamed files k g =
      find-put (path_of key ++ codes ".corrupt") (path_of k) (bad damaged)
        (remove (path_of key) files)
      ∙ rw (clear key k) (find-remove (path_of key) (path_of k) files)
  find-without_file key removed files k g = find-remove (path_of key) (path_of k) files
  find-without_file key kept files k g = cc

  quarantine-files :
      (key : Str) (move : Move) (db : Database A)
      → quarantine path_of cfg (path_of key) move db
        ≡ (record db { files = without_file (path_of key) move db.files })
  quarantine-files key renamed db = refl
  quarantine-files key removed db = refl
  quarantine-files key kept db = refl

  quarantine-kept :
      (key : Str) (move : Move) (db : Database A)
      → is_gone move ≡ false
      → quarantine path_of cfg (path_of key) move db ≡ db
  quarantine-kept key renamed db g = cc
  quarantine-kept key removed db g = cc
  quarantine-kept key kept db g = refl

  content-damaged :
      (f : Option (FileContent A)) → content path_of cfg f ≡ failed damaged → f ≡ some (bad damaged)
  content-damaged none e = cc
  content-damaged (some (good b)) e = cc
  content-damaged (some (bad not_exist)) e = cc
  content-damaged (some (bad damaged)) e = refl
  content-damaged (some (bad other_error)) e = cc

  seen-damaged :
      (key : Str) (db : Database A)
      → seen path_of cfg inj db key ≡ failed damaged
      → (find key db.dirty_buckets ≡ none) × (find (path_of key) db.files ≡ some (bad damaged))
  unfolding open_read_no_cache open_read_path
  seen-damaged key db e = elim (Option-cases (find key db.dirty_buckets)) [
    | inl d ↦
        let from_file : seen path_of cfg inj db key
            ≡ content path_of cfg (find (path_of key) db.files) =
          rw d refl in
        (d, content-damaged (find (path_of key) db.files) (sym from_file ∙ e))
    | inr (x, d) ↦
        let from_memory : seen path_of cfg inj db key ≡ opened x.bucket = rw d refl in
        absurd (clash x.bucket (sym from_memory ∙ e))
  ]
    where
      clash : (b : Bucket A) → ◌≡◌ {A = Read A} (opened b) (failed damaged) → ⊥
      clash b c = cc

  -- Its two branches: a damaged file, and any other read.
  quarantined-seen :
      (key : Str) (move : Move) (db : Database A) (k : Str)
      → is_gone move ≡ true
      → seen path_of cfg inj db key ≡ failed damaged
      → seen path_of cfg inj (quarantine path_of cfg (path_of key) move db) k
        ≡ set_read key (failed not_exist) (seen path_of cfg inj db) k
  unfolding open_read_no_cache open_read_path
  quarantined-seen key move db k g e =
      let (d, f) = seen-damaged key db e in
      rw (quarantine-files key move db) (elim (Bool-cases (equal key k)) [
        | inl y ↦
            let same : key ≡ k = (equal_iff key k).0 y in
            let clean : find k db.dirty_buckets ≡ none = rw (← same) d in
            let here : find (path_of k) (without_file (path_of key) move db.files) ≡ none =
              find-without_file key move db.files k g ∙ rw (same, equal_refl (path_of k)) refl in
            rw (y, clean, here) refl
        | inr n ↦
            let there : find (path_of k) (without_file (path_of key) move db.files)
                ≡ find (path_of k) db.files =
              find-without_file key move db.files k g ∙ rw (apart path_of inj key k n) refl in
            elim (Option-cases (find k db.dirty_buckets)) [
              | inl c ↦ rw (n, c, there) refl
              | inr (x, c) ↦ rw (n, c) refl
            ]
      ])

  quarantined-Coherent :
      (key : Str) (move : Move) (db : Database A)
      → is_gone move ≡ true
      → IsCoherent path_of db
      → find (path_of key) db.files ≡ some (bad damaged)
      → IsCoherent path_of (quarantine path_of cfg (path_of key) move db)
  quarantined-Coherent key move db gone h f = rw (quarantine-files key move db) (
      All-map (Fits path_of (λ k. has k db.dirty_buckets) db.files)
        (Fits path_of (λ k. has k db.dirty_buckets) (without_file (path_of key) move db.files)) step
        db.cache h)
    where
      step :
          (e : Str × CachedBucket A)
          → Fits path_of (λ k. has k db.dirty_buckets) db.files e
          → Fits path_of (λ k. has k db.dirty_buckets) (without_file (path_of key) move db.files) e
      step e (g, alone, (j, q)) =
          (rw (← q) (find-without_file key move db.files j gone ∙ rw (n, q) g), alone, (j, q))
        where
          same_file : (p : Str) → p ≡ e.0 → find p db.files ≡ some (bad damaged) → ⊥
          same_file p y x = differ (sym x ∙ rw y g)
            where
              differ :
                  ◌≡◌ {A = Option (FileContent A)} (some (bad damaged)) (some (good e.1.bucket)) → ⊥
              differ c = cc

          n : equal (path_of key) (path_of j) ≡ false
          n = elim (Bool-cases (equal (path_of key) (path_of j))) [
            | inl y ↦
                absurd (same_file (path_of key) ((equal_iff (path_of key) (path_of j)).0 y ∙ q) f)
            | inr d ↦ d
          ]

  -- What a read with recovery comes to, from a database and what its key reads there.
  abbrev pub Recovers : Str → Move → Database A → Read A × Database A → Type 0
  Recovers key move db r =
      (r.0 ≡ or_empty (seen path_of cfg inj db key))
      × IsCoherent path_of r.1
      × ((k : Str)
          → seen path_of cfg inj r.1 k
            ≡ set_read key (left_of move (seen path_of cfg inj db key)) (seen path_of cfg inj db) k)
      × (r.1.dirty_buckets ≡ db.dirty_buckets)
      × (r.1.master ≡ db.master)
      × (r.1.fast ≡ db.fast)

  or_empty_bucket-Recovers :
      (key : Str) (move : Move) (r : Read A) (db : Database A)
      → seen path_of cfg inj db key ≡ r
      → IsCoherent path_of db
      → Recovers key move db (or_empty_bucket path_of cfg key move (r, db))
  or_empty_bucket-Recovers key move (opened b) db e h =
      rw e (refl, h, set_same key (opened b) (seen path_of cfg inj db) e, refl, refl, refl)
  or_empty_bucket-Recovers key move (failed not_exist) db e h =
      rw e (refl, h, set_same key (failed not_exist) (seen path_of cfg inj db) e, refl, refl, refl)
  or_empty_bucket-Recovers key move (failed damaged) db e h =
      let (d, f) = seen-damaged key db e in
      let q = quarantine-files key move db in
      elim (Bool-cases (is_gone move)) [
        | inl g ↦
            rw (e, g)
              (
                refl,
                quarantined-Coherent key move db g h f,
                λ k. quarantined-seen key move db k g e,
                rw q refl,
                rw q refl,
                rw q refl,
              )
        | inr n ↦
            let stays = quarantine-kept key move db n in
            rw (e, n, stays)
              (refl, h, set_same key (failed damaged) (seen path_of cfg inj db) e, refl, refl, refl)
      ]
  or_empty_bucket-Recovers key move (failed other_error) db e h =
      rw e
        (refl, h, set_same key (failed other_error) (seen path_of cfg inj db) e, refl, refl, refl)

  -- If no two keys share a path and no key's path is that of a quarantined file, then, while the cache agrees
  -- with the files, `OpenReadOrEmpty` gives the bucket of its key, an empty one where its file is missing or
  -- damaged, and the error otherwise; a damaged file is gone then if it could be renamed or removed, and stays if
  -- neither could be done; no other key reads differently, and the tables and the dirty buckets stay.
  pub open_read_or_empty-Recovers :
      (key : Str) (now : ℕ) (move : Move) (db : Database A)
      → IsCoherent path_of db
      → Recovers key move db (open_read_or_empty path_of cfg key now move db)
  unfolding open_read_or_empty
  open_read_or_empty-Recovers key now move db h =
      let (h1, e, same) = open_read_lem path_of cfg inj key now db h in
      let db1 : Database A = (open_read path_of cfg key now db).1 in
      let s = same-seen path_of cfg inj db db1 same in
      let (r0, c, v, d, m, f) =
        or_empty_bucket-Recovers key move (open_read path_of cfg key now db).0 db1 (s key ∙ sym e)
          h1 in
      (
        r0 ∙ ap or_empty (s key),
        c,
        λ k. v k ∙ rw (s key, s k) refl,
        d ∙ rw same refl,
        m ∙ rw same refl,
        f ∙ rw same refl,
      )
