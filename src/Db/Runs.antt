-- ===== src/Db/Runs.antt =====
-- filedb: the database's operations one after another, from a start on, and what they come to.
use jacred_go.Base.{
  ℕ, Bool, true, false, not, ◌||◌, List, [], ◌∷◌, Option, Str, equal, ◌≡◌, refl, ap, ◌∙◌,
  if◌then◌else◌, ◌==◌, length,
}
use jacred_go.Base.Dict.{find, has, IsMap, put-IsMap, remove-IsMap}
use jacred_go.Base.Trim.{trim_space, is_empty}
use jacred_go.Db.State.{Bucket, TorrentInfo, CacheConfig, Database, key_parts, raw_parts}
use jacred_go.Db.Cache.{evict_cache}
use jacred_go.Db.Reads.{
  Read, opened, open_read, open_read_path, open_read_no_cache, open_read_or_empty, Move,
}
use jacred_go.Db.Writes.{
  save_empty, save_full, save_by_length, audited, save_bucket_internal, flush_dirty_buckets,
  remove_key_from_master_db,
}
use jacred_go.Db.Rebuild.{rebuild_indexes}
use jacred_go.Db.CacheEntries.{All-evict_cache}
use jacred_go.Db.Coherent.{Fits, IsCoherent, IsInjective, open_read_lem}
use jacred_go.Db.Saved.{set_read, seen, same-seen, save_bucket_internal-Saves}
use jacred_go.Db.Recovered.{IsClear, left_of, open_read_or_empty-Recovers}
use jacred_go.Db.Flushed.{flush_dirty_buckets-seen}

-- A database that has just been opened.
abbrev pub IsCold : {A : Type 0} → Database A → Type 0
IsCold db = (db.cache ≡ []) × (db.dirty_buckets ≡ [])

-- The parts of its keys have no blanks around them.
abbrev pub HasPlainKeys : {A : Type 0} → Database A → Type 0
HasPlainKeys db = (k : Str) → has k db.master ≡ true → raw_parts k ≡ key_parts k

module _ {A : Type 0} (path_of : Str → Str) (cfg : CacheConfig) (key_of : A → Str)
    (time_of : A → ℕ) where
  -- The databases a run reaches, with what was last saved under each key.
  pub data Run : (Str → Read A) → Database A → Type 0 where
    started :
        (loaded : Option (List (Str × TorrentInfo))) (db : Database A)
        → IsCold db
        → HasPlainKeys (rebuild_indexes key_of time_of loaded db)
        → Run
            (λ k. open_read_path path_of cfg (path_of k) db)
            (rebuild_indexes key_of time_of loaded db)
    saved :
        (audits writes : Bool) (key : Str) (b : Bucket A) (t now : ℕ) {v : Str → Read A}
        {db : Database A}
        → is_empty (trim_space key) ≡ false
        → writes || not (length b == 0) ≡ true
        → Run v db
        → Run
            (set_read key (opened b) v)
            (save_bucket_internal path_of cfg audits writes key b t now db)
    read :
        (key : Str) (now : ℕ) {v : Str → Read A} {db : Database A}
        → Run v db
        → Run v (open_read path_of cfg key now db).1
    recovered :
        (key : Str) (now : ℕ) (move : Move) {v : Str → Read A} {db : Database A}
        → Run v db
        → Run
            (set_read key (left_of move (v key)) v)
            (open_read_or_empty path_of cfg key now move db).1
    evicted :
        (n now : ℕ) {v : Str → Read A} {db : Database A}
        → Run v db
        → Run v (record db { cache = (evict_cache cfg n now db.cache).0 })
    flushed :
        (writes : Str → Bool) {v : Str → Read A} {db : Database A}
        → Run v db
        → Run v (flush_dirty_buckets path_of cfg writes db).0
    removed :
        (key : Str) {v : Str → Read A} {db : Database A}
        → Run v db
        → Run v (remove_key_from_master_db path_of cfg key db)

module _ {A : Type 0} (path_of : Str → Str) (cfg : CacheConfig) (key_of : A → Str) (time_of : A → ℕ)
    (inj : IsInjective path_of) (clear : IsClear path_of) where
  save_by_length-IsMap :
      (key : Str) (b : Bucket A) (t : ℕ) (writes : Bool) (db : Database A)
      → IsMap db.dirty_buckets
      → IsMap (save_by_length path_of cfg key b t writes db).dirty_buckets
  unfolding save_full save_empty
  save_by_length-IsMap key [] t true db h = remove-IsMap key db.dirty_buckets h
  save_by_length-IsMap key [] t false db h = remove-IsMap key db.dirty_buckets h
  save_by_length-IsMap key (e ∷ b) t writes db h =
      put-IsMap key (record { bucket = e ∷ b; updated_at = t }) db.dirty_buckets h

  audited-IsMap :
      (audits : Bool) (key : Str) (now : ℕ) (db : Database A)
      → IsCoherent path_of db
      → IsMap db.dirty_buckets
      → IsMap (audited path_of cfg audits key now db).dirty_buckets
  audited-IsMap true key now db c h = rw (open_read_lem path_of cfg inj key now db c).2 h
  audited-IsMap false key now db c h = h

  -- What the database keeps at every step.
  abbrev pub Sound : (Str → Read A) → Database A → Type 0
  Sound v db =
      IsMap db.dirty_buckets × IsCoherent path_of db × ((k : Str) → seen path_of cfg inj db k ≡ v k)

  pub Run-Sound :
      {v : Str → Read A} {db : Database A} → Run path_of cfg key_of time_of v db → Sound v db
  unfolding rebuild_indexes save_bucket_internal remove_key_from_master_db open_read_no_cache find
  Run-Sound (started loaded db (c, d) plain) = (rw d tt, rw c tt, λ k. rw d refl)
  Run-Sound (saved audits writes key b t now {v} {db} n w run) =
      let (m, h, s) = Run-Sound run in
      let (h', s') =
        save_bucket_internal-Saves path_of cfg inj audits writes key b t now db h n w in
      let db1 : Database A = audited path_of cfg audits key now db in
      (
        rw n (
            save_by_length-IsMap key b (if t == 0 then now else t) writes db1
              (audited-IsMap audits key now db h m)),
        h',
        λ k. s' k ∙ ap (λ (x : Read A). if equal key k then opened b else x) (s k),
      )
  Run-Sound (read key now {v} {db} run) =
      let (m, h, s) = Run-Sound run in
      let (h', r, same) = open_read_lem path_of cfg inj key now db h in
      (
        rw same m,
        h',
        λ k. same-seen path_of cfg inj db (open_read path_of cfg key now db).1 same k ∙ s k,
      )
  Run-Sound (recovered key now move {v} {db} run) =
      let (m, h, s) = Run-Sound run in
      let (r, h', s', d, t, f) =
        open_read_or_empty-Recovers path_of cfg inj clear key now move db h in
      (rw d m, h', λ k. s' k ∙ rw (s key, s k) refl)
  Run-Sound (evicted n now {v} {db} run) =
      let (m, h, s) = Run-Sound run in
      (
        m,
        All-evict_cache cfg (Fits path_of (λ k. has k db.dirty_buckets) db.files) n now db.cache h,
        s,
      )
  Run-Sound (flushed writes {v} {db} run) =
      let (m, h, s) = Run-Sound run in
      let (m', h', s') = flush_dirty_buckets-seen path_of cfg inj writes db m h in
      (m', h', λ k. s' k ∙ s k)
  Run-Sound (removed key {v} {db} run) = Run-Sound run

  -- The content that was last saved under a key, or its file's if none was since the start, is what
  -- `OpenRead` gives, after any run of saves under keys that are not blank (whose write succeeds where the bucket
  -- is empty), reads (one that recovers from a damaged file leaves none if it can be renamed or removed), evictions
  -- from the cache, flushes whichever of their writes fail, and removals of keys, if no two keys share a path, no
  -- key's path is that of a quarantined file and the parts of the keys that it starts with have no blanks around them.
  pub Run-open_read :
      {v : Str → Read A} {db : Database A} (key : Str) (now : ℕ)
      → Run path_of cfg key_of time_of v db
      → (open_read path_of cfg key now db).0 ≡ v key
  Run-open_read {v} {db} key now run =
      let (m, h, s) = Run-Sound run in (open_read_lem path_of cfg inj key now db h).1 ∙ s key
