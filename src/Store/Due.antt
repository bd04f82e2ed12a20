-- ===== src/Store/Due.antt =====
-- filedb/merge.go: a changed title makes the full details due.
use jacred_go.Base.{not, ◌&&◌, ◌≡◌, refl, true, false, Bool, List, Str, equal, ◌∙◌, arith, codes}
use jacred_go.Base.Atoi.{ℤ, pos}
use jacred_go.Store.Details.{scalar, Val, text, int, get-put_other, Conversions, Details, get}
use jacred_go.Store.Merge.{
  Merging, merge_start, merge_fields, upt, set_text, set_val, merge_types, merge_text,
  merge_create_time, merge_magnet, merge_sid, merge_pir, merge_relased, merge_name, trimmed_at,
  str_at, as_it_is, fill_search, merge_names, merge_originals,
}
use jacred_go.Store.Stamps.{if-keeps}
use jacred_go.Store.Names.{Texts, search_name}
use jacred_go.Base.Trim.{is_empty}

module _ {O : Type 0} (go : Conversions O) (txt : Texts) (now : Str) where
  -- A merge that has found the full details due.
  pub record IsDue (st : Merging O) : Type 0 where
    pub due : st.full ≡ true

  upt-IsDue : (full timed : Bool) {st : Merging O} → IsDue st → IsDue (upt go txt now full timed st)
  unfolding upt
  upt-IsDue full true {st} h = let d = h.due in record { due = ground arith }
  upt-IsDue full false {st} h = let d = h.due in record { due = ground arith }

  put-IsDue : (k : Str) (v : Val O) {st : Merging O} → IsDue st → IsDue (set_val go txt now k v st)
  put-IsDue k v h = record { due = h.due }

  text-IsDue :
      (k : Str) (full : Bool) (clean : Str → Str) (incoming : Details O) {st : Merging O}
      → IsDue st
      → IsDue (merge_text go txt now k full clean incoming st)
  unfolding merge_text
  text-IsDue k full clean incoming h = if-keeps IsDue _ (upt-IsDue full true (put-IsDue k _ h)) h

  sid-IsDue :
      (attempts : ℤ) (incoming : Details O) {st : Merging O}
      → IsDue st
      → IsDue (merge_sid go txt now attempts incoming st)
  unfolding merge_sid
  sid-IsDue attempts incoming h =
      if-keeps IsDue _
        (upt-IsDue false false (
          put-IsDue (codes "sid") _
            (if-keeps IsDue _ (put-IsDue (codes "ffprobe_tryingdata") _ h) h)))
        h

  pir-IsDue :
      (incoming : Details O) {st : Merging O} → IsDue st → IsDue (merge_pir go txt now incoming st)
  unfolding merge_pir
  pir-IsDue incoming h = if-keeps IsDue _ (upt-IsDue false false (put-IsDue (codes "pir") _ h)) h

  create_time-IsDue :
      (incoming : Details O) {st : Merging O}
      → IsDue st
      → IsDue (merge_create_time go txt now incoming st)
  unfolding merge_create_time
  create_time-IsDue incoming h =
      if-keeps IsDue _ (upt-IsDue false false (put-IsDue (codes "createTime") _ h)) h

  magnet-IsDue :
      (incoming : Details O) {st : Merging O}
      → IsDue st
      → IsDue (merge_magnet go txt now incoming st)
  unfolding merge_magnet
  magnet-IsDue incoming h =
      if-keeps IsDue _
        (upt-IsDue false true
          (put-IsDue (codes "magnet") _ (put-IsDue (codes "ffprobe_tryingdata") _ h)))
        h

  relased-IsDue :
      (incoming : Details O) {st : Merging O}
      → IsDue st
      → IsDue (merge_relased go txt now incoming st)
  unfolding merge_relased
  relased-IsDue incoming h =
      if-keeps IsDue _ (upt-IsDue false true (put-IsDue (codes "relased") _ h)) h

  set-IsDue :
      (key search_key v : Str) {st : Merging O}
      → IsDue st
      → IsDue (
          upt go txt now false true
            (set_text go txt now search_key (search_name txt v) (set_text go txt now key v st)))
  set-IsDue key search_key v h =
      upt-IsDue false true (
        put-IsDue search_key (scalar (text (search_name txt v)))
          (put-IsDue key (scalar (text v)) h))

  name-IsDue :
      (key search_key new fallback : Str) {st : Merging O}
      → IsDue st
      → IsDue (merge_name go txt now key search_key new fallback st)
  unfolding merge_name
  name-IsDue key search_key new fallback {st} h =
      let old = trimmed_at go txt now key st.torrent in
      if-keeps IsDue (not (is_empty new) && not (equal new old)) (set-IsDue key search_key new h) (
        if-keeps IsDue (is_empty old)
          (if-keeps IsDue (is_empty fallback) h (set-IsDue key search_key fallback h)) h)

  fill-IsDue :
      (search_key : Str) (texts : List Str) {st : Merging O}
      → IsDue st
      → IsDue (fill_search go txt now search_key texts st)
  unfolding fill_search
  fill-IsDue search_key texts h =
      if-keeps IsDue _ (if-keeps IsDue _ h (upt-IsDue false true (put-IsDue search_key _ h))) h

  names-IsDue :
      (incoming : Details O) {st : Merging O}
      → IsDue st
      → IsDue (merge_originals go txt now incoming (merge_names go txt now incoming st))
  unfolding merge_originals merge_names
  names-IsDue incoming h =
      fill-IsDue _ _ (name-IsDue _ _ _ _ (fill-IsDue _ _ (name-IsDue _ _ _ _ h)))

  -- The title that is stored before the merge.
  record HasTitle (t : Details O) (st : Merging O) : Type 0 where
    title : get (codes "title") st.torrent ≡ get (codes "title") t

  put-HasTitle :
      (k : Str) (v : Val O) {t : Details O} {st : Merging O}
      → equal k (codes "title") ≡ false
      → HasTitle t st
      → HasTitle t (set_val go txt now k v st)
  put-HasTitle k v {t} {st} d h = record { title = get-put_other (codes "title") k v _ d ∙ h.title }

  upt-HasTitle :
      {t : Details O} {st : Merging O} → HasTitle t st → HasTitle t (upt go txt now true true st)
  unfolding upt
  upt-HasTitle h = record {
    title =
        get-put_other (codes "title") (codes "ffprobe_tryingdata") (scalar (int (pos 0))) _ refl
        ∙ get-put_other (codes "title") (codes "updateTime") (scalar (text now)) _ refl
        ∙ h.title;
  }

  types-HasTitle :
      (incoming : Details O) {t : Details O} {st : Merging O}
      → HasTitle t st
      → HasTitle t (merge_types go txt now incoming st)
  unfolding merge_types
  types-HasTitle incoming {t} h =
      if-keeps (HasTitle t) _
        (if-keeps (HasTitle t) _
          (put-HasTitle (codes "types") _ refl (if-keeps (HasTitle t) _ (upt-HasTitle h) h))
          (upt-HasTitle (put-HasTitle (codes "types") _ refl h)))
        h

  tracker-HasTitle :
      (incoming : Details O) {t : Details O} {st : Merging O}
      → HasTitle t st
      → HasTitle t
          (merge_text go txt now (codes "trackerName") true (as_it_is go txt now) incoming st)
  unfolding merge_text
  tracker-HasTitle incoming {t} h =
      if-keeps (HasTitle t) _ (upt-HasTitle (put-HasTitle (codes "trackerName") _ refl h)) h

  -- A title that is not empty and not the stored one.
  pub record IsNewTitle (t incoming : Details O) : Type 0 where
    pub given : is_empty (str_at go txt now (codes "title") incoming) ≡ false
    pub other :
        equal (str_at go txt now (codes "title") incoming) (str_at go txt now (codes "title") t)
        ≡ false

  title-IsDue :
      (t incoming : Details O) {st : Merging O}
      → IsNewTitle t incoming
      → HasTitle t st
      → IsDue (merge_text go txt now (codes "title") true (as_it_is go txt now) incoming st)
  unfolding merge_text upt
  title-IsDue t incoming n h = record {
    due = let same = h.title in rw (same, n.given, n.other) refl;
  }

  pub merge_fields-IsDue :
      (attempts : ℤ) (t incoming : Details O)
      → IsNewTitle t incoming
      → IsDue (merge_fields go txt now attempts incoming (merge_start go txt now t))
  unfolding merge_fields
  merge_fields-IsDue attempts t incoming n =
      let due =
        title-IsDue t incoming n
          (tracker-HasTitle incoming (types-HasTitle incoming (record { title = refl }))) in
      text-IsDue (codes "url") false _ incoming (
        relased-IsDue incoming (
          names-IsDue incoming (
            text-IsDue (codes "sizeName") true _ incoming (
              pir-IsDue incoming (
                sid-IsDue attempts incoming
                  (magnet-IsDue incoming (create_time-IsDue incoming due)))))))
