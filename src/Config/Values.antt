-- ===== src/Config/Values.antt =====
-- app/config.go: the parts of a line and the values of its keys.
use mathlib.Core.List.{reverse}
use jacred_go.Base.{
  ℕ, Bool, true, false, ◌&&◌, ◌||◌, [], ◌∷◌, Option, none, some, Str, codes, equal, ◌==◌,
  if◌then◌else◌, map, length,
}
use jacred_go.Base.Atoi.{ℤ, pos, atoi}
use jacred_go.Base.Trim.{strip, trim_space, is_empty, lower_byte}

abbrev pub is_blank : ℕ → Bool
is_blank c = c == b' ' || c == b'\t'

abbrev pub contains_byte : ℕ → Str → Bool
contains_byte b [] = false
contains_byte b (c ∷ s) = c == b || contains_byte b s

abbrev pub blank_width : Str → ℕ
blank_width [] = 0
blank_width (c ∷ s) = if is_blank c then 1 else 0

-- `strings.TrimRight(s, " \t")`
abbrev pub trim_blanks_right : Str → Str
trim_blanks_right s = reverse (strip blank_width (length s) (reverse s))

abbrev pub quote_width : Str → ℕ
quote_width [] = 0
quote_width (c ∷ s) = if c == b'"' then 1 else 0

-- `strings.Trim(s, "\"")`
unfoldable pub trim_quotes : Str → Str
unfolding strip
trim_quotes s =
    let t = strip quote_width (length s) s in reverse (strip quote_width (length t) (reverse t))

-- The rest of a quoted value, behind its first quote: up to the closing one, or all of it. The byte behind a
-- backslash is passed over.
unfoldable pub quoted : Str → Str
quoted [] = []
quoted (c ∷ []) = c ∷ []
quoted (c ∷ d ∷ s) =
    let behind = quoted s in
    let next = quoted (d ∷ s) in
    if c == b'\\' then c ∷ d ∷ behind else if c == b'"' then c ∷ [] else c ∷ next

-- Up to a `#` that starts the text or follows a blank.
unfoldable pub before_comment : Bool → Str → Str
before_comment after_blank [] = []
before_comment after_blank (c ∷ s) =
    let rest = before_comment (is_blank c) s in if c == b'#' && after_blank then [] else c ∷ rest

abbrev pub strip_trimmed : Str → Str
strip_trimmed [] = []
strip_trimmed (c ∷ s) =
    if c == b'"'
    then c ∷ quoted s
    else if length (before_comment true (c ∷ s)) == length (c ∷ s)
    then c ∷ s
    else trim_blanks_right (before_comment true (c ∷ s))

-- `stripInlineComment`
unfoldable pub strip_inline_comment : Str → Str
unfolding trim_space quoted before_comment strip
strip_inline_comment v = strip_trimmed (trim_space v)

-- `unquote`
unfoldable pub unquote : Str → Str
unfolding trim_space trim_quotes
unquote v = if equal (trim_space v) (codes "null") then [] else trim_quotes (trim_space v)

-- `isBlankValue`
abbrev pub is_blank_value : Str → Bool
is_blank_value s = is_empty s || equal s (codes "null") || equal s (codes "~")

abbrev pub or_zero : Option ℤ → ℤ
or_zero none = pos 0
or_zero (some n) = n

abbrev pub int_of : Str → ℤ
int_of s = if is_blank_value s then pos 0 else or_zero (atoi s)

-- `parseIntAt`, without its warning.
unfoldable pub parse_int_at : Str → ℤ
unfolding trim_space trim_quotes atoi
parse_int_at v = int_of (trim_quotes (trim_space v))

-- `parseBoolAt`, without its warning.
unfoldable pub parse_bool_at : Str → Bool
unfolding trim_space trim_quotes
parse_bool_at v = equal (map lower_byte (trim_quotes (trim_space v))) (codes "true")

-- What is before and behind the first colon of a line.
unfoldable pub at_colon : Str → Option (Str × Str)
at_colon [] = none
at_colon (c ∷ s) =
    let rest = at_colon s in
    if c == b':' then some ([], s) else elim rest [ none ↦ none | some kv ↦ some (c ∷ kv.0, kv.1) ]

abbrev pub key_and_value : Str → Option (Str × Str) → Str × Str
key_and_value s none = (trim_space s, [])
key_and_value s (some kv) = (trim_space kv.0, strip_inline_comment kv.1)

-- `splitKV`
unfoldable pub split_kv : Str → Str × Str
unfolding trim_space strip_inline_comment at_colon
split_kv s = key_and_value s (at_colon s)
