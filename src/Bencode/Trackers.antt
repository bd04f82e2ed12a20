-- ===== src/Bencode/Trackers.antt =====
-- The trackers of a magnet: trimmed, in order, each once, and none lost.
use jacred_go.Base.{
  Bool, false, not, ◌&&◌, ◌||◌, List, [], ◌∷◌, Str, ◌≡◌, arith, equal, contains, ◌∙◌, ap,
}
use jacred_go.Base.Trim.{trim_space, is_empty}
use jacred_go.Base.Sort.{
  contains-sort_strings, sort_strings-IsIncreasing, IsIncreasing, HasNoDuplicate,
}
use jacred_go.Base.Unique.{contains-add_unique, add_unique-HasNoDuplicate}
use jacred_go.Bencode.Magnet.{add_tracker, uniq_from, trackers_of}

-- Some announce, trimmed, is `s`, and `s` is not empty.
abbrev pub announced : List Str → Str → Bool
announced [] s = false
announced (tr ∷ rest) s = equal (trim_space tr) s && not (is_empty s) || announced rest s

contains-uniq_from :
    (uniq rest : List Str) (s : Str)
    → contains (uniq_from uniq rest) s ≡ contains uniq s || announced rest s
unfolding uniq_from
contains-uniq_from uniq [] s = ground arith
contains-uniq_from uniq (tr ∷ rest) s =
    contains-uniq_from (add_tracker uniq (trim_space tr)) rest s
    ∙ ap (λ b. b || announced rest s) (contains-add_unique uniq (trim_space tr) s)
    ∙ ground arith

uniq_from-HasNoDuplicate :
    (uniq rest : List Str) → HasNoDuplicate uniq → HasNoDuplicate (uniq_from uniq rest)
unfolding uniq_from
uniq_from-HasNoDuplicate uniq [] h = h
uniq_from-HasNoDuplicate uniq (tr ∷ rest) h =
    uniq_from-HasNoDuplicate (add_tracker uniq (trim_space tr)) rest
      (add_unique-HasNoDuplicate uniq (trim_space tr) h)

-- The trackers are in increasing order with no duplicate, and they are exactly the announces that
-- are not blank, trimmed.
pub trackers_of_lem :
    (announces : List Str)
    → IsIncreasing (trackers_of announces)
      × ((s : Str) → contains (trackers_of announces) s ≡ announced announces s)
unfolding trackers_of
trackers_of_lem announces = (
  sort_strings-IsIncreasing (uniq_from [] announces) (uniq_from-HasNoDuplicate [] announces tt),
  λ s. contains-sort_strings (uniq_from [] announces) s ∙ contains-uniq_from [] announces s,
)
