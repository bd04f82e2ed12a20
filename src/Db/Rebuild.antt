-- ===== src/Db/Rebuild.antt =====
-- filedb/filedb.go: `RebuildIndexes` and `torrentKey`; core/hash.go: `NameToHash`; filedb/admin.go:
-- `NormalizeFileTime`.
use jacred_go.Base.{
  ℕ, Bool, true, ◌||◌, List, [], ◌∷◌, ◌++◌, Option, none, some, Str, codes, equal, ltb,
  if◌then◌else◌, map,
}
use jacred_go.Base.Atoi.{ℤ, pos, negsuc}
use jacred_go.Base.Dict.{find, put}
use jacred_go.Base.Sort.{sort_strings}
use jacred_go.Base.Trim.{is_empty}
use jacred_go.Store.Names.{Texts, search_name}
use jacred_go.Db.State.{
  Bucket, TorrentInfo, FileContent, good, bad, Database, sub_int, to_file_time_utc, raw_parts,
}
use jacred_go.Db.Writes.{keys_at}

-- `NameToHash`
unfoldable pub name_to_hash : Texts → Str → Str → Str
unfolding search_name
name_to_hash txt name original =
    let n = search_name txt name in
    let o = search_name txt original in
    let n1 = if is_empty n then o else n in
    let o1 = if is_empty o then n1 else o in n1 ++ (b':' ∷ o1)

-- `torrentKey`, of a torrent's two names.
unfoldable pub torrent_key : Texts → Str → Str → Str
unfolding name_to_hash
torrent_key txt name original =
    let o = if is_empty original then name else original in
    let n = if is_empty name then o else name in name_to_hash txt n o

-- The difference of the two epochs, from the larger ticks on.
abbrev pub shift_ticks : ℕ → ℤ → ℤ
shift_ticks threshold (pos n) = if ltb threshold n then sub_int n 504911232000000000 else pos n
shift_ticks threshold (negsuc n) = negsuc n

-- `NormalizeFileTime`
abbrev pub normalize_file_time : ℤ → ℤ
normalize_file_time ft = shift_ticks 500000000000000000 ft

-- The entries of masterDb.bz, with the ticks of an old file shifted.
abbrev migrated_info : TorrentInfo → TorrentInfo
migrated_info i = record i { file_time = shift_ticks 200000000000000000 i.file_time }

abbrev pub migrate : List (Str × TorrentInfo) → List (Str × TorrentInfo)
migrate m = map (λ e. (e.0, migrated_info e.1)) m

abbrev pub has_suffix : Str → Str → Bool
has_suffix suffix [] = is_empty suffix
has_suffix suffix (c ∷ s) = equal suffix (c ∷ s) || has_suffix suffix s

abbrev newer : ℕ → Option TorrentInfo → Bool
newer t none = true
newer t (some i) = ltb i.update_time t

module _ {A : Type 0} (key_of : A → Str) (time_of : A → ℕ) where
  -- A torrent of a file, in the scan of all files.
  abbrev scan_torrent : A → List (Str × TorrentInfo) → List (Str × TorrentInfo)
  scan_torrent t m =
      let key = key_of t in
      if equal key (codes ":") || is_empty key
      then m
      else if newer (time_of t) (find key m)
      then put key (record { update_time = time_of t; file_time = to_file_time_utc (time_of t) }) m
      else m

  unfoldable pub scan_bucket : Bucket A → List (Str × TorrentInfo) → List (Str × TorrentInfo)
  unfolding find put
  scan_bucket [] m = m
  scan_bucket ((url, t) ∷ b) m = scan_bucket b (scan_torrent t m)

  abbrev scan_file : Str → FileContent A → List (Str × TorrentInfo) → List (Str × TorrentInfo)
  scan_file path (bad e) m = m
  scan_file path (good b) m = if has_suffix (codes ".tmp") path then m else scan_bucket b m

  -- `filepath.Walk` over the bucket files.
  unfoldable pub scan_files :
      List (Str × FileContent A) → List (Str × TorrentInfo) → List (Str × TorrentInfo)
  unfolding scan_bucket
  scan_files [] m = m
  scan_files ((path, f) ∷ files) m = scan_files files (scan_file path f m)

-- `fast[part] = append(fast[part], key)`
unfoldable pub append_parts : Str → List Str → List (Str × List Str) → List (Str × List Str)
unfolding find put
append_parts key [] fast = fast
append_parts key (p ∷ ps) fast = append_parts key ps (put p (keys_at p fast ++ key ∷ []) fast)

unfoldable pub append_keys :
    List (Str × TorrentInfo) → List (Str × List Str) → List (Str × List Str)
unfolding append_parts raw_parts
append_keys [] fast = fast
append_keys ((key, i) ∷ m) fast = append_keys m (append_parts key (raw_parts key) fast)

abbrev pub sorted_entry : Str × List Str → Str × List Str
sorted_entry e = (e.0, sort_strings e.1)

-- The index of names of a master table.
unfoldable pub index_of_master : List (Str × TorrentInfo) → List (Str × List Str)
unfolding append_keys sort_strings
index_of_master m = map sorted_entry (append_keys m [])

abbrev pub loaded_master : Option (List (Str × TorrentInfo)) → List (Str × TorrentInfo)
loaded_master none = []
loaded_master (some m) = migrate m

module _ {A : Type 0} (key_of : A → Str) (time_of : A → ℕ) where
  abbrev pub or_scan : List (Str × TorrentInfo) → Database A → List (Str × TorrentInfo)
  or_scan [] db = scan_files key_of time_of db.files []
  or_scan (e ∷ m) db = e ∷ m

  -- `RebuildIndexes`, from what masterDb.bz decodes to, if it does.
  unfoldable pub rebuild_indexes : Option (List (Str × TorrentInfo)) → Database A → Database A
  unfolding scan_files index_of_master
  rebuild_indexes loaded db =
      let master = or_scan (loaded_master loaded) db in
      record db { master = master; fast = index_of_master master }
