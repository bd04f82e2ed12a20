-- ===== src/Store/New.antt =====
-- filedb/merge.go: `mergeNew` and `MergeTorrent`.
use jacred_go.Base.{
  Bool, true, false, [], ◌∷◌, Option, none, some, Str, codes, length, ◌==◌, if◌then◌else◌,
}
use jacred_go.Base.Atoi.{ℤ}
use jacred_go.Store.Names.{Texts, search_name_with_fallback}
use jacred_go.Store.Merge.{Merging, trimmed_at, or_else, merge_existing}
use jacred_go.Base.Trim.{is_empty}
use jacred_go.Store.Details.{
  Val, scalar, text, null, Conversions, Details, get, put, as_string_slice,
}

module _ {O : Type 0} (go : Conversions O) (txt : Texts) (now : Str) where
  abbrev non_null : Val O → Bool
  non_null (scalar null) = false
  non_null v = true

  -- The fields that are not nil.
  unfoldable pub copy_fields : Details O → Details O
  copy_fields [] = []
  copy_fields ((k, v) ∷ m) = if non_null v then (k, v) ∷ copy_fields m else copy_fields m

  abbrev pub new_names : Details O → Details O
  new_names t =
      let title = trimmed_at go txt now (codes "title") t in
      let name0 = trimmed_at go txt now (codes "name") t in
      let name = or_else go txt now name0 title in
      let original0 = trimmed_at go txt now (codes "originalname") t in
      let original = or_else go txt now original0 (or_else go txt now name title) in
      let t1 = if is_empty name0 then put (codes "name") (scalar (text name)) t else t in
      let t2 =
        if is_empty original0 then put (codes "originalname") (scalar (text original)) t1 else t1 in
      put (codes "_so")
        (scalar (text (search_name_with_fallback txt (original ∷ name ∷ title ∷ []))))
        (put (codes "_sn") (scalar (text (search_name_with_fallback txt (name ∷ title ∷ [])))) t2)

  -- `mergeNew`: nothing without a magnet and a type.
  unfoldable pub merge_new : Details O → Option (Details O)
  unfolding copy_fields search_name_with_fallback
  merge_new incoming =
      if is_empty (trimmed_at go txt now (codes "magnet") incoming)
      then none
      else if length (as_string_slice go (get (codes "types") incoming)) == 0
      then none
      else some (new_names (copy_fields incoming))

  -- `MergeResult`
  pub data MergeResult : Type 0 where
    nothing : MergeResult
    added : Details O → MergeResult
    merged : Merging O → MergeResult

  -- `MergeTorrent`
  unfoldable pub merge_torrent : Option (Details O) → Details O → ℤ → MergeResult
  unfolding merge_new merge_existing
  merge_torrent none incoming attempts = elim (merge_new incoming) [
    | none ↦ nothing
    | some t ↦ added t
  ]
  merge_torrent (some t) incoming attempts = merged (merge_existing go txt now attempts t incoming)
