-- ===== src/Helpers/Examples.antt =====
-- core/helpers.go on a short list.
use jacred_go.Base.{◌≡◌, not, ◌&&◌, List, [], ◌∷◌, Str, contains, codes}
use jacred_go.Base.Trim.{is_empty}
use jacred_go.Base.Sort.{IsIncreasing}
use jacred_go.Helpers.StripTags.{
  strip_tags_and_collapse_spaces, join_words, words, outside_tags, is_blank_rune,
  strip_tags_and_collapse_spaces_lem,
}
use jacred_go.Base.{false, refl}
use jacred_go.Helpers.{sorted_unique_strings, sorted_unique_strings_lem}

abbrev three : List Str
three = codes "b" ∷ [] ∷ codes "a" ∷ codes "b" ∷ []

sorted_unique_strings_lem_example :
    IsIncreasing (sorted_unique_strings three)
    × ((s : Str) → contains (sorted_unique_strings three) s ≡ contains three s && not (is_empty s))
sorted_unique_strings_lem_example = sorted_unique_strings_lem three

strip_tags_and_collapse_spaces_lem_example :
    strip_tags_and_collapse_spaces (codes " <b>a</b>  b\nc ")
    ≡ join_words (words (outside_tags false (codes " <b>a</b>  b\nc ")))
strip_tags_and_collapse_spaces_lem_example =
    strip_tags_and_collapse_spaces_lem (codes " <b>a</b>  b\nc ")

three_words : join_words (words (outside_tags false (codes " <b>a</b>  b\nc "))) ≡ codes "a b c"
unfolding is_blank_rune
three_words = refl
