-- ===== src/Helpers.antt =====
-- core/helpers.go: the helpers on lists of texts. A set of texts is the list of its members.
use jacred_go.Base.{
  ◌≡◌, refl, ◌∙◌, ap, Bool, true, false, not, ◌&&◌, ◌||◌, List, [], ◌∷◌, Str, equal, contains,
  if◌then◌else◌, arith, codes,
}
use jacred_go.Base.Trim.{trim_space, is_empty}
use jacred_go.Base.Sort.{
  sort_strings, contains-sort_strings, sort_strings-IsIncreasing, IsIncreasing, HasNoDuplicate,
}
use jacred_go.Base.Unique.{add_unique, contains-add_unique, add_unique-HasNoDuplicate}
pub mod StripTags
mod Examples

-- `FirstNonEmpty`
unfoldable pub first_non_empty : List Str → Str
unfolding trim_space
first_non_empty [] = []
first_non_empty (v ∷ vs) =
    let rest = first_non_empty vs in if is_empty (trim_space v) then rest else trim_space v

-- `ContainsString`
abbrev pub contains_string : List Str → Str → Bool
contains_string vals want = contains vals want

unfoldable pub unique_from : List Str → List Str → List Str
unique_from out [] = out
unique_from out (v ∷ vs) = unique_from (add_unique out v) vs

-- `UniqueStrings`
abbrev pub unique_strings : List Str → List Str
unique_strings vals = unique_from [] vals

-- `SortedUniqueStrings`
unfoldable pub sorted_unique_strings : List Str → List Str
unfolding unique_from
sorted_unique_strings vals = sort_strings (unique_strings vals)

-- `MakeStringSet`
abbrev pub make_string_set : List Str → List Str
make_string_set vals = unique_strings vals

abbrev any_in : List Str → List Str → Bool
any_in set [] = false
any_in set (v ∷ vs) = contains set v || any_in set vs

-- `HasAny`
unfoldable pub has_any : List Str → List Str → Bool
unfolding unique_from
has_any hay want = any_in (make_string_set hay) want

contains-unique_from :
    (out vals : List Str) (s : Str)
    → contains (unique_from out vals) s ≡ contains out s || (contains vals s && not (is_empty s))
unfolding unique_from
contains-unique_from out [] s = ground arith
contains-unique_from out (v ∷ vals) s =
    contains-unique_from (add_unique out v) vals s
    ∙ ap (λ b. b || (contains vals s && not (is_empty s))) (contains-add_unique out v s)
    ∙ ground arith

unique_from-HasNoDuplicate :
    (out vals : List Str) → HasNoDuplicate out → HasNoDuplicate (unique_from out vals)
unfolding unique_from
unique_from-HasNoDuplicate out [] h = h
unique_from-HasNoDuplicate out (v ∷ vals) h =
    unique_from-HasNoDuplicate (add_unique out v) vals (add_unique-HasNoDuplicate out v h)

-- The sorted unique texts of a list are in increasing order with no duplicate, and they are exactly the
-- texts of the list that are not empty.
pub sorted_unique_strings_lem :
    (vals : List Str)
    → IsIncreasing (sorted_unique_strings vals)
      × ((s : Str) → contains (sorted_unique_strings vals) s ≡ contains vals s && not (is_empty s))
unfolding sorted_unique_strings
sorted_unique_strings_lem vals = (
  sort_strings-IsIncreasing (unique_from [] vals) (unique_from-HasNoDuplicate [] vals tt),
  λ s. contains-sort_strings (unique_from [] vals) s ∙ contains-unique_from [] vals s,
)
