-- ===== src/Helpers/StripTags.antt =====
-- core/helpers.go: `StripTagsAndCollapseSpaces`, over the characters that Go decodes from a text.
use jacred_go.Base.{
  ℕ, ◌≡◌, refl, Bool, true, false, ◌||◌, List, [], ◌∷◌, ◌==◌, if◌then◌else◌, arith, Bool-cases, inl,
  inr, ap, sym, ◌∙◌, ◌++◌,
}
use jacred_go.Base.Trim.{is_empty}

-- A blank, a tab, a line break or a no-break space.
unfoldable pub is_blank_rune : ℕ → Bool
is_blank_rune r = r == b' ' || r == b'\t' || r == b'\n' || r == b'\r' || r == 0xa0

-- The loop, by `inTag` and `prevSpace`.
unfoldable pub strip_from : Bool → Bool → List ℕ → List ℕ
strip_from in_tag prev [] = []
strip_from true prev (r ∷ s) =
    let closed = strip_from false prev s in
    let still = strip_from true prev s in if r == b'>' then closed else still
strip_from false prev (r ∷ s) =
    let tag = strip_from true prev s in
    let blank = strip_from false true s in
    let rest = strip_from false false s in
    if r == b'<'
    then tag
    else if is_blank_rune r
    then (if prev then blank else b' ' ∷ blank)
    else r ∷ rest

-- The blank at the end goes.
unfoldable pub drop_last_blank : List ℕ → List ℕ
drop_last_blank [] = []
drop_last_blank (r ∷ []) = if r == b' ' then [] else r ∷ []
drop_last_blank (r ∷ q ∷ s) = r ∷ drop_last_blank (q ∷ s)

-- `StripTagsAndCollapseSpaces`
unfoldable pub strip_tags_and_collapse_spaces : List ℕ → List ℕ
unfolding strip_from drop_last_blank
strip_tags_and_collapse_spaces s = drop_last_blank (strip_from false true s)

-- The text outside the tags, from outside or from within one.
abbrev pub outside_tags : Bool → List ℕ → List ℕ
outside_tags in_tag [] = []
outside_tags true (r ∷ s) =
    let closed = outside_tags false s in
    let still = outside_tags true s in if r == b'>' then closed else still
outside_tags false (r ∷ s) =
    let tag = outside_tags true s in
    let rest = outside_tags false s in if r == b'<' then tag else r ∷ rest

abbrev pub starts_blank : List ℕ → Bool
starts_blank [] = true
starts_blank (r ∷ s) = is_blank_rune r

-- A character in front of the first word.
abbrev pub attach : ℕ → List (List ℕ) → List (List ℕ)
attach r [] = (r ∷ []) ∷ []
attach r (w ∷ ws) = (r ∷ w) ∷ ws

-- The longest runs of characters that are not blank.
abbrev pub words : List ℕ → List (List ℕ)
words [] = []
words (r ∷ s) =
    let ws = words s in
    if is_blank_rune r then ws else if starts_blank s then (r ∷ []) ∷ ws else attach r ws

abbrev pub join_words : List (List ℕ) → List ℕ
join_words [] = []
join_words (w ∷ []) = w
join_words (w ∷ v ∷ ws) = w ++ (b' ' ∷ join_words (v ∷ ws))

-- The loop on a text without tags.
abbrev squeeze : Bool → List ℕ → List ℕ
squeeze prev [] = []
squeeze prev (r ∷ s) =
    let blank = squeeze true s in
    let rest = squeeze false s in
    if is_blank_rune r then (if prev then blank else b' ' ∷ blank) else r ∷ rest

strip_from-squeeze :
    (in_tag prev : Bool) (s : List ℕ)
    → strip_from in_tag prev s ≡ squeeze prev (outside_tags in_tag s)
unfolding strip_from
strip_from-squeeze in_tag prev [] = refl
strip_from-squeeze true prev (r ∷ s) = elim (Bool-cases (r == b'>')) [
  | inl y ↦ rw y (strip_from-squeeze false prev s)
  | inr n ↦ rw n (strip_from-squeeze true prev s)
]
strip_from-squeeze false prev (r ∷ s) = elim (Bool-cases (r == b'<')) [
  | inl y ↦ rw y (strip_from-squeeze true prev s)
  | inr n ↦ rw (n, strip_from-squeeze false true s, strip_from-squeeze false false s) refl
]

word_rune_lem : (r : ℕ) → is_blank_rune r ≡ false → (r == b' ') ≡ false
unfolding is_blank_rune
word_rune_lem r h = ground arith

drop_last_blank-cons :
    (r : ℕ) (s : List ℕ) → is_empty s ≡ false → drop_last_blank (r ∷ s) ≡ r ∷ drop_last_blank s
unfolding drop_last_blank
drop_last_blank-cons r [] h = cc
drop_last_blank-cons r (q ∷ s) h = refl

abbrev no_words : List (List ℕ) → Bool
no_words [] = true
no_words (w ∷ ws) = false

no_words-attach : (r : ℕ) (ws : List (List ℕ)) → no_words (attach r ws) ≡ false
no_words-attach r [] = refl
no_words-attach r (w ∷ ws) = refl

is_empty-squeeze : (s : List ℕ) → is_empty (squeeze true s) ≡ no_words (words s)
is_empty-squeeze [] = refl
is_empty-squeeze (r ∷ s) = elim (Bool-cases (is_blank_rune r)) [
  | inl y ↦ rw y (is_empty-squeeze s)
  | inr n ↦ elim (Bool-cases (starts_blank s)) [
    | inl b ↦ rw (n, b) refl
    | inr m ↦ rw (n, m) (sym (no_words-attach r (words s)))
  ]
]

-- The words behind a word: a blank in front, if there are any.
abbrev behind_word : List (List ℕ) → List ℕ
behind_word [] = []
behind_word (w ∷ ws) = b' ' ∷ join_words (w ∷ ws)

join_words-attach : (r : ℕ) (ws : List (List ℕ)) → join_words (attach r ws) ≡ r ∷ join_words ws
join_words-attach r [] = refl
join_words-attach r (w ∷ []) = refl
join_words-attach r (w ∷ v ∷ ws) = refl

join_words-behind : (r : ℕ) (ws : List (List ℕ)) → join_words ((r ∷ []) ∷ ws) ≡ r ∷ behind_word ws
join_words-behind r [] = refl
join_words-behind r (w ∷ ws) = refl

-- What follows a word, by whether a blank is next.
abbrev follows : Bool → List (List ℕ) → List ℕ
follows true ws = behind_word ws
follows false ws = join_words ws

abbrev IsSqueezed : List ℕ → Type 0
IsSqueezed s =
    (drop_last_blank (squeeze true s) ≡ join_words (words s))
    × (drop_last_blank (squeeze false s) ≡ follows (starts_blank s) (words s))

drop_last_blank-blank : (s : List ℕ) → is_empty s ≡ true → drop_last_blank (b' ' ∷ s) ≡ []
unfolding drop_last_blank
drop_last_blank-blank [] h = refl
drop_last_blank-blank (q ∷ s) h = cc

blank-IsSqueezed :
    (s : List ℕ) (ws : List (List ℕ))
    → is_empty (squeeze true s) ≡ no_words ws
    → drop_last_blank (squeeze true s) ≡ join_words ws
    → drop_last_blank (b' ' ∷ squeeze true s) ≡ behind_word ws
blank-IsSqueezed s [] e h = drop_last_blank-blank (squeeze true s) e
blank-IsSqueezed s (w ∷ ws) e h = drop_last_blank-cons b' ' (squeeze true s) e ∙ ap (◌∷◌ b' ') h

squeeze-cons : (q : ℕ) (s : List ℕ) → is_empty (squeeze false (q ∷ s)) ≡ false
squeeze-cons q s = elim (Bool-cases (is_blank_rune q)) [ inl y ↦ rw y refl | inr n ↦ rw n refl ]

join_words-word :
    (r : ℕ) (s : List ℕ)
    → is_blank_rune r ≡ false
    → join_words (words (r ∷ s)) ≡ r ∷ follows (starts_blank s) (words s)
join_words-word r s n = elim (Bool-cases (starts_blank s)) [
  | inl b ↦ rw (n, b) (join_words-behind r (words s))
  | inr m ↦ rw (n, m) (join_words-attach r (words s))
]

word-IsSqueezed :
    (r : ℕ) (s : List ℕ)
    → is_blank_rune r ≡ false
    → IsSqueezed s
    → drop_last_blank (r ∷ squeeze false s) ≡ join_words (words (r ∷ s))
unfolding drop_last_blank
word-IsSqueezed r [] n h = rw (word_rune_lem r n, n) refl
word-IsSqueezed r (q ∷ s) n h =
    drop_last_blank-cons r (squeeze false (q ∷ s)) (squeeze-cons q s)
    ∙ ap (◌∷◌ r) h.1
    ∙ sym (join_words-word r (q ∷ s) n)

squeeze-IsSqueezed : (s : List ℕ) → IsSqueezed s
unfolding drop_last_blank
squeeze-IsSqueezed [] = (refl, refl)
squeeze-IsSqueezed (r ∷ s) = elim (Bool-cases (is_blank_rune r)) [
  | inl y ↦
      let h = squeeze-IsSqueezed s in
      rw y (h.0, blank-IsSqueezed s (words s) (is_empty-squeeze s) h.0)
  | inr n ↦ let h = word-IsSqueezed r s n (squeeze-IsSqueezed s) in rw n (rw n at h, rw n at h)
]

-- Every result is the words of the text outside the tags, in order, with one blank between two of them and
-- none at the ends. A word is a longest run of characters that are none of blank, tab, line break, carriage
-- return and no-break space; a tag that is not closed goes on to the end.
pub strip_tags_and_collapse_spaces_lem :
    (s : List ℕ) → strip_tags_and_collapse_spaces s ≡ join_words (words (outside_tags false s))
unfolding strip_tags_and_collapse_spaces
strip_tags_and_collapse_spaces_lem s =
    ap drop_last_blank (strip_from-squeeze false true s)
    ∙ (squeeze-IsSqueezed (outside_tags false s)).0
