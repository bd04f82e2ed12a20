-- ===== src/Store/Record.antt =====
-- filedb/record.go: a torrent as a record, and as the map that the database keeps.
use jacred_go.Base.{
  zero, ◌≡◌, refl, ◌∙◌, ap, Bool, true, false, not, ◌&&◌, List, [], ◌∷◌, Option, none, some, Str,
  codes, equal, if◌then◌else◌, Bool-cases, inl, inr, arith, equal_iff, suc, &&-eq-true,
}
use jacred_go.Base.Atoi.{ℤ, pos, negsuc}
use jacred_go.Store.Details.{
  Val, scalar, strings, items, text, int, int64, null, other, Conversions, Details, get, as_string,
  as_int, as_int64, as_string_slice,
}

-- `TorrentRecord`
pub record TorrentRecord (O : Type 0) : Type 0 where
  pub tracker_name : Str
  pub types : List Str
  pub url : Str
  pub title : Str
  pub sid : ℤ
  pub pir : ℤ
  pub size_name : Str
  pub size : ℤ
  pub magnet : Str
  pub create_time : Str
  pub update_time : Str
  pub name : Str
  pub original_name : Str
  pub relased : ℤ
  pub download_id : Str
  pub search_name : Str
  pub search_orig : Str
  pub quality : ℤ
  pub video_type : Str
  pub voices : Str
  pub seasons : Str
  pub languages : Str
  pub download_uri : Str
  pub tid : Str
  pub ffprobe : Val O

-- Keys with the values that are set under them, if any.
abbrev pub Fields : Type 0 → Type 0
Fields O = List (Str × Option (Val O))

module _ {O : Type 0} where
  -- What `ToMap` sets for a field: nothing for the field's zero value.
  abbrev of_text : Str → Option (Val O)
  of_text [] = none
  of_text (c ∷ s) = some (scalar (text (c ∷ s)))

  abbrev of_strings : List Str → Option (Val O)
  of_strings [] = none
  of_strings (s ∷ ss) = some (strings (s ∷ ss))

  abbrev of_int : ℤ → Option (Val O)
  of_int (pos zero) = none
  of_int n = some (scalar (int n))

  abbrev of_int64 : ℤ → Option (Val O)
  of_int64 (pos zero) = none
  of_int64 n = some (scalar (int64 n))

  abbrev of_any : Val O → Option (Val O)
  of_any (scalar null) = none
  of_any v = some v

  -- The fields of a record under the keys of the map, in the order of `ToMap`.
  abbrev pub fields_of : TorrentRecord O → Fields O
  fields_of r =
      (codes "trackerName", of_text r.tracker_name)
      ∷ (codes "types", of_strings r.types)
      ∷ (codes "url", of_text r.url)
      ∷ (codes "title", of_text r.title)
      ∷ (codes "sid", of_int r.sid)
      ∷ (codes "pir", of_int r.pir)
      ∷ (codes "sizeName", of_text r.size_name)
      ∷ (codes "size", of_int64 r.size)
      ∷ (codes "magnet", of_text r.magnet)
      ∷ (codes "createTime", of_text r.create_time)
      ∷ (codes "updateTime", of_text r.update_time)
      ∷ (codes "name", of_text r.name)
      ∷ (codes "originalname", of_text r.original_name)
      ∷ (codes "relased", of_int r.relased)
      ∷ (codes "downloadId", of_text r.download_id)
      ∷ (codes "_sn", of_text r.search_name)
      ∷ (codes "_so", of_text r.search_orig)
      ∷ (codes "quality", of_int r.quality)
      ∷ (codes "videotype", of_text r.video_type)
      ∷ (codes "voices", of_text r.voices)
      ∷ (codes "seasons", of_text r.seasons)
      ∷ (codes "languages", of_text r.languages)
      ∷ (codes "_downloadURI", of_text r.download_uri)
      ∷ (codes "_tid", of_text r.tid)
      ∷ (codes "ffprobe", of_any r.ffprobe)
      ∷ []

  -- The map of the fields that are set.
  unfoldable pub set_fields : Fields O → Details O
  set_fields [] = []
  set_fields ((k, none) ∷ fs) = set_fields fs
  set_fields ((k, some v) ∷ fs) = (k, v) ∷ set_fields fs

  -- `ToMap`
  unfoldable pub to_map : TorrentRecord O → Details O
  unfolding set_fields
  to_map r = set_fields (fields_of r)

  abbrev itself : Val O → Val O
  itself v = v

  -- `RecordFromMap`
  unfoldable pub record_from_map : Conversions O → Details O → TorrentRecord O
  record_from_map go m = record {
    tracker_name = as_string go (get (codes "trackerName") m);
    types = as_string_slice go (get (codes "types") m);
    url = as_string go (get (codes "url") m);
    title = as_string go (get (codes "title") m);
    sid = as_int go (get (codes "sid") m);
    pir = as_int go (get (codes "pir") m);
    size_name = as_string go (get (codes "sizeName") m);
    size = as_int64 go (get (codes "size") m);
    magnet = as_string go (get (codes "magnet") m);
    create_time = as_string go (get (codes "createTime") m);
    update_time = as_string go (get (codes "updateTime") m);
    name = as_string go (get (codes "name") m);
    original_name = as_string go (get (codes "originalname") m);
    relased = as_int go (get (codes "relased") m);
    download_id = as_string go (get (codes "downloadId") m);
    search_name = as_string go (get (codes "_sn") m);
    search_orig = as_string go (get (codes "_so") m);
    quality = as_int go (get (codes "quality") m);
    video_type = as_string go (get (codes "videotype") m);
    voices = as_string go (get (codes "voices") m);
    seasons = as_string go (get (codes "seasons") m);
    languages = as_string go (get (codes "languages") m);
    download_uri = as_string go (get (codes "_downloadURI") m);
    tid = as_string go (get (codes "_tid") m);
    ffprobe = itself (get (codes "ffprobe") m);
  }

  abbrev or_null : Option (Val O) → Val O
  or_null none = scalar null
  or_null (some v) = v

  -- The first field of a key.
  abbrev field_at : Str → Fields O → Val O
  field_at k [] = scalar null
  field_at k ((j, o) ∷ fs) = if equal j k then or_null o else field_at k fs

  abbrev has_key : Str → Fields O → Bool
  has_key k [] = false
  has_key k ((j, o) ∷ fs) = if equal j k then true else has_key k fs

  abbrev distinct : Fields O → Bool
  distinct [] = true
  distinct ((k, o) ∷ fs) = not (has_key k fs) && distinct fs

  get-set_fields_missing :
      (k : Str) (fs : Fields O) → has_key k fs ≡ false → get k (set_fields fs) ≡ scalar null
  unfolding get set_fields
  get-set_fields_missing k [] h = refl
  get-set_fields_missing k ((j, o) ∷ fs) h = elim (Bool-cases (equal j k)) [
    | inl y ↦ taken (rw y at h)
    | inr n ↦ missing o n (get-set_fields_missing k fs (rw n at h))
  ]
    where
      taken : true ≡ false → get k (set_fields ((j, o) ∷ fs)) ≡ scalar null
      taken e = cc

      missing :
          (o : Option (Val O))
          → equal j k ≡ false
          → get k (set_fields fs) ≡ scalar null
          → get k (set_fields ((j, o) ∷ fs)) ≡ scalar null
      missing none n g = g
      missing (some v) n g = rw n g

  -- With distinct keys the map has under each key what its field sets.
  get-set_fields :
      (k : Str) (fs : Fields O) → distinct fs ≡ true → get k (set_fields fs) ≡ field_at k fs
  unfolding get set_fields
  get-set_fields k [] h = refl
  get-set_fields k ((j, o) ∷ fs) h = elim (Bool-cases (equal j k)) [
    | inl y ↦
        here o y (rw ((equal_iff j k).0 y) at (&&-eq-true (not (has_key j fs)) (distinct fs) h).0)
    | inr n ↦ there o n (get-set_fields k fs (&&-eq-true (not (has_key j fs)) (distinct fs) h).1)
  ]
    where
      here :
          (o : Option (Val O))
          → equal j k ≡ true
          → not (has_key k fs) ≡ true
          → get k (set_fields ((j, o) ∷ fs)) ≡ field_at k ((j, o) ∷ fs)
      here none y d = rw y (get-set_fields_missing k fs (ground arith))
      here (some v) y d = rw y refl

      there :
          (o : Option (Val O))
          → equal j k ≡ false
          → get k (set_fields fs) ≡ field_at k fs
          → get k (set_fields ((j, o) ∷ fs)) ≡ field_at k ((j, o) ∷ fs)
      there none n g = rw n g
      there (some v) n g = rw n g

  get-to_map : (k : Str) (r : TorrentRecord O) → get k (to_map r) ≡ field_at k (fields_of r)
  unfolding to_map
  get-to_map k r = get-set_fields k (fields_of r) refl

  of_text_lem : (go : Conversions O) (s : Str) → as_string go (or_null (of_text s)) ≡ s
  unfolding as_string
  of_text_lem go [] = refl
  of_text_lem go (c ∷ s) = refl

  of_strings_lem :
      (go : Conversions O) (s : List Str) → as_string_slice go (or_null (of_strings s)) ≡ s
  unfolding as_string_slice
  of_strings_lem go [] = refl
  of_strings_lem go (c ∷ s) = refl

  of_int_lem : (go : Conversions O) (n : ℤ) → as_int go (or_null (of_int n)) ≡ n
  unfolding as_int
  of_int_lem go (pos zero) = refl
  of_int_lem go (pos (suc n)) = refl
  of_int_lem go (negsuc n) = refl

  of_int64_lem : (go : Conversions O) (n : ℤ) → as_int64 go (or_null (of_int64 n)) ≡ n
  unfolding as_int64
  of_int64_lem go (pos zero) = refl
  of_int64_lem go (pos (suc n)) = refl
  of_int64_lem go (negsuc n) = refl

  of_any_lem : (v : Val O) → or_null (of_any v) ≡ v
  of_any_lem (scalar null) = refl
  of_any_lem (scalar (text s)) = refl
  of_any_lem (scalar (int n)) = refl
  of_any_lem (scalar (int64 n)) = refl
  of_any_lem (scalar (other x)) = refl
  of_any_lem (strings ss) = refl
  of_any_lem (items xs) = refl

  -- A record written as a map and read again is the same record, whatever its fields and whatever Go
  -- makes of the values that the map does not hold.
  pub record_from_map-to_map :
      (go : Conversions O) (r : TorrentRecord O) → record_from_map go (to_map r) ≡ r
  unfolding record_from_map
  record_from_map-to_map go r = λ i. record {
    tracker_name =
        (ap (as_string go) (get-to_map (codes "trackerName") r) ∙ of_text_lem go r.tracker_name) i;
    types = (ap (as_string_slice go) (get-to_map (codes "types") r) ∙ of_strings_lem go r.types) i;
    url = (ap (as_string go) (get-to_map (codes "url") r) ∙ of_text_lem go r.url) i;
    title = (ap (as_string go) (get-to_map (codes "title") r) ∙ of_text_lem go r.title) i;
    sid = (ap (as_int go) (get-to_map (codes "sid") r) ∙ of_int_lem go r.sid) i;
    pir = (ap (as_int go) (get-to_map (codes "pir") r) ∙ of_int_lem go r.pir) i;
    size_name =
        (ap (as_string go) (get-to_map (codes "sizeName") r) ∙ of_text_lem go r.size_name) i;
    size = (ap (as_int64 go) (get-to_map (codes "size") r) ∙ of_int64_lem go r.size) i;
    magnet = (ap (as_string go) (get-to_map (codes "magnet") r) ∙ of_text_lem go r.magnet) i;
    create_time =
        (ap (as_string go) (get-to_map (codes "createTime") r) ∙ of_text_lem go r.create_time) i;
    update_time =
        (ap (as_string go) (get-to_map (codes "updateTime") r) ∙ of_text_lem go r.update_time) i;
    name = (ap (as_string go) (get-to_map (codes "name") r) ∙ of_text_lem go r.name) i;
    original_name =
        (ap (as_string go) (get-to_map (codes "originalname") r) ∙ of_text_lem go r.original_name)
          i;
    relased = (ap (as_int go) (get-to_map (codes "relased") r) ∙ of_int_lem go r.relased) i;
    download_id =
        (ap (as_string go) (get-to_map (codes "downloadId") r) ∙ of_text_lem go r.download_id) i;
    search_name = (ap (as_string go) (get-to_map (codes "_sn") r) ∙ of_text_lem go r.search_name) i;
    search_orig = (ap (as_string go) (get-to_map (codes "_so") r) ∙ of_text_lem go r.search_orig) i;
    quality = (ap (as_int go) (get-to_map (codes "quality") r) ∙ of_int_lem go r.quality) i;
    video_type =
        (ap (as_string go) (get-to_map (codes "videotype") r) ∙ of_text_lem go r.video_type) i;
    voices = (ap (as_string go) (get-to_map (codes "voices") r) ∙ of_text_lem go r.voices) i;
    seasons = (ap (as_string go) (get-to_map (codes "seasons") r) ∙ of_text_lem go r.seasons) i;
    languages =
        (ap (as_string go) (get-to_map (codes "languages") r) ∙ of_text_lem go r.languages) i;
    download_uri =
        (ap (as_string go) (get-to_map (codes "_downloadURI") r) ∙ of_text_lem go r.download_uri) i;
    tid = (ap (as_string go) (get-to_map (codes "_tid") r) ∙ of_text_lem go r.tid) i;
    ffprobe = (ap (itself) (get-to_map (codes "ffprobe") r) ∙ of_any_lem r.ffprobe) i;
  }
