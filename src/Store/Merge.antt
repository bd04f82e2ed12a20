-- ===== src/Store/Merge.antt =====
-- filedb/merge.go: `mergeExisting`.
-- The stored map is changed in place: it is passed from each step to the next. Times are instants from
-- year 1 on.
use jacred_go.Base.{
  ℕ, Bool, true, false, not, ◌&&◌, ◌||◌, List, [], ◌∷◌, Str, codes, equal, contains, length, ltb,
  leb, ◌==◌, if◌then◌else◌,
}
use jacred_go.Base.Atoi.{ℤ, pos, negsuc}
use jacred_go.Store.Names.{Texts, search_name, search_name_with_fallback}
use jacred_go.Base.Trim.{trim_space, is_empty}
use jacred_go.Store.Details.{
  Val, scalar, text, int, Conversions, Details, get, put, delete, as_string, as_int,
  as_string_slice,
}

-- `!=` and `>` on `int`.
abbrev pub equal_int : ℤ → ℤ → Bool
equal_int (pos a) (pos b) = a == b
equal_int (negsuc a) (negsuc b) = a == b
equal_int _ _ = false

abbrev pub lt_int : ℤ → ℤ → Bool
lt_int (pos a) (pos b) = ltb a b
lt_int (pos a) (negsuc b) = false
lt_int (negsuc a) (pos b) = true
lt_int (negsuc a) (negsuc b) = ltb b a

-- The stored torrent and the flags of `mergeExisting`.
pub record Merging (O : Type 0) : Type 0 where
  pub torrent : Details O
  pub changed : Bool
  pub full : Bool
  pub timed : Bool

-- Some type of a list is not empty and not among those stored.
abbrev pub has_new_type : List Str → List Str → Bool
has_new_type old [] = false
has_new_type old (t ∷ ts) = not (is_empty t) && not (contains old t) || has_new_type old ts

module _ {O : Type 0} (go : Conversions O) (txt : Texts) (now : Str) where
  -- A text at a key, as it is and trimmed.
  abbrev pub str_at : Str → Details O → Str
  str_at k m = as_string go (get k m)

  abbrev pub trimmed_at : Str → Details O → Str
  trimmed_at k m = trim_space (str_at k m)

  abbrev pub set_text : Str → Str → Merging O → Merging O
  set_text k s st = record st { torrent = put k (scalar (text s)) st.torrent }

  abbrev pub set_val : Str → Val O → Merging O → Merging O
  set_val k v st = record st { torrent = put k v st.torrent }

  -- The closure `upt` of `mergeExisting`.
  unfoldable pub upt : Bool → Bool → Merging O → Merging O
  upt uptfull true st = record {
    torrent =
        put (codes "ffprobe_tryingdata") (scalar (int (pos 0)))
          (put (codes "updateTime") (scalar (text now)) st.torrent);
    changed = true;
    full = uptfull || st.full;
    timed = true;
  }
  upt uptfull false st = record st { changed = true; full = uptfull || st.full }

  -- `parseTimeField`; no map holds a `time.Time`.
  unfoldable pub parse_time_field : Val O → ℕ
  parse_time_field v =
      let s = trim_space (as_string go v) in if is_empty s then 0 else txt.parse_time s

  unfoldable pub merge_types : Details O → Merging O → Merging O
  merge_types incoming st =
      let new = as_string_slice go (get (codes "types") incoming) in
      let old = as_string_slice go (get (codes "types") st.torrent) in
      let set = set_val (codes "types") (get (codes "types") incoming) in
      if leb 1 (length new)
      then (if leb 1 (length old)
          then set (if has_new_type old new then upt true true st else st)
          else upt true true (set st))
      else st

  -- A text of the incoming torrent that is not empty and not the stored one.
  unfoldable pub merge_text : Str → Bool → (Str → Str) → Details O → Merging O → Merging O
  merge_text k full clean incoming st =
      let v = clean (str_at k incoming) in
      if not (is_empty v) && not (equal v (str_at k st.torrent))
      then upt full true (set_text k v st)
      else st

  abbrev pub as_it_is : Str → Str
  as_it_is s = s

  unfoldable pub merge_create_time : Details O → Merging O → Merging O
  unfolding parse_time_field
  merge_create_time incoming st =
      let new = parse_time_field (get (codes "createTime") incoming) in
      let old = parse_time_field (get (codes "createTime") st.torrent) in
      if not (new == 0) && ltb old new
      then upt false false (set_text (codes "createTime") (txt.format_time new) st)
      else st

  unfoldable pub merge_magnet : Details O → Merging O → Merging O
  merge_magnet incoming st =
      let v = trimmed_at (codes "magnet") incoming in
      if not (is_empty v) && not (equal v (str_at (codes "magnet") st.torrent))
      then upt false true (
          set_text (codes "magnet") v
            (set_val (codes "ffprobe_tryingdata") (scalar (int (pos 0))) st))
      else st

  abbrev pub int_at : Str → Details O → ℤ
  int_at k m = as_int go (get k m)

  -- The attempts to probe a torrent that had no seeders begin anew.
  abbrev probes_anew : ℤ → ℤ → Merging O → Bool
  probes_anew attempts new st =
      equal_int (int_at (codes "sid") st.torrent) (pos 0)
      && not (lt_int new (pos 2))
      && not (lt_int (int_at (codes "ffprobe_tryingdata") st.torrent) attempts)
      && lt_int (pos 0) attempts

  unfoldable pub merge_sid : ℤ → Details O → Merging O → Merging O
  merge_sid attempts incoming st =
      let new = int_at (codes "sid") incoming in
      let reset =
        if probes_anew attempts new st
        then set_val (codes "ffprobe_tryingdata") (scalar (int (pos 0))) st
        else st in
      if not (equal_int new (int_at (codes "sid") st.torrent))
      then upt false false (set_val (codes "sid") (scalar (int new)) reset)
      else st

  unfoldable pub merge_pir : Details O → Merging O → Merging O
  merge_pir incoming st =
      let new = int_at (codes "pir") incoming in
      if not (equal_int new (int_at (codes "pir") st.torrent))
      then upt false false (set_val (codes "pir") (scalar (int new)) st)
      else st

  unfoldable pub merge_relased : Details O → Merging O → Merging O
  merge_relased incoming st =
      let new = int_at (codes "relased") incoming in
      if lt_int (pos 0) new && not (equal_int new (int_at (codes "relased") st.torrent))
      then upt false true (set_val (codes "relased") (scalar (int new)) st)
      else st

  -- A name with its search form, or a fallback for a stored name that is blank.
  unfoldable pub merge_name : Str → Str → Str → Str → Merging O → Merging O
  merge_name key search_key new fallback st =
      let old = trimmed_at key st.torrent in
      let set =
        λ (v : Str). upt false true (set_text search_key (search_name txt v) (set_text key v st)) in
      if not (is_empty new) && not (equal new old)
      then set new
      else if is_empty old
      then (if is_empty fallback then st else set fallback)
      else st

  -- A search form that is blank is made of the first of some texts that gives one.
  unfoldable pub fill_search : Str → List Str → Merging O → Merging O
  fill_search search_key texts st =
      let sn = search_name_with_fallback txt texts in
      if is_empty (trimmed_at search_key st.torrent)
      then (if is_empty sn then st else upt false true (set_text search_key sn st))
      else st

  -- The first of two texts that is not blank.
  abbrev pub or_else : Str → Str → Str
  or_else a b = if is_empty a then b else a

  unfoldable pub merge_names : Details O → Merging O → Merging O
  unfolding search_name search_name_with_fallback trim_space
  merge_names incoming st =
      let named =
        merge_name (codes "name") (codes "_sn") (trimmed_at (codes "name") incoming)
          (or_else (trimmed_at (codes "title") incoming) (trimmed_at (codes "title") st.torrent))
          st in
      fill_search (codes "_sn")
        (str_at (codes "name") named.torrent ∷ str_at (codes "title") named.torrent ∷ []) named

  unfoldable pub merge_originals : Details O → Merging O → Merging O
  unfolding search_name search_name_with_fallback trim_space
  merge_originals incoming st =
      let named =
        merge_name (codes "originalname") (codes "_so") (trimmed_at (codes "originalname") incoming)
          (or_else (trimmed_at (codes "name") st.torrent) (trimmed_at (codes "title") incoming))
          st in
      fill_search (codes "_so")
        (str_at (codes "originalname") named.torrent
          ∷ str_at (codes "name") named.torrent
          ∷ str_at (codes "title") named.torrent
          ∷ [])
        named

  -- The fields that are computed from the others.
  abbrev pub computed : List Str
  computed =
      codes "quality"
      ∷ codes "videotype"
      ∷ codes "voices"
      ∷ codes "languages"
      ∷ codes "seasons"
      ∷ codes "size"
      ∷ []

  unfoldable pub delete_all : List Str → Details O → Details O
  delete_all [] m = m
  delete_all (k ∷ ks) m = delete_all ks (delete k m)

  abbrev pub clear_computed : Merging O → Merging O
  clear_computed st = if st.full then record st { torrent = delete_all computed st.torrent } else st

  abbrev pub merge_start : Details O → Merging O
  merge_start t = record { torrent = t; changed = false; full = false; timed = false }

  -- The fields of `mergeExisting`, in its order.
  unfoldable pub merge_fields : ℤ → Details O → Merging O → Merging O
  merge_fields attempts incoming st =
      let a = merge_text (codes "trackerName") true as_it_is incoming (merge_types incoming st) in
      let b = merge_create_time incoming (merge_text (codes "title") true as_it_is incoming a) in
      let c = merge_pir incoming (merge_sid attempts incoming (merge_magnet incoming b)) in
      let d = merge_names incoming (merge_text (codes "sizeName") true trim_space incoming c) in
      merge_text (codes "url") false as_it_is incoming
        (merge_relased incoming (merge_originals incoming d))

  -- `mergeExisting`
  unfoldable pub merge_existing : ℤ → Details O → Details O → Merging O
  merge_existing attempts t incoming =
      clear_computed (merge_fields attempts incoming (merge_start t))
