-- ===== src/Config/LineText.antt =====
-- app/config.go: what the loop of `parseYAMLIntoConfig` reads of a line.
use mathlib.Core.List.{reverse}
use jacred_go.Base.{
  ℕ, suc, Bool, true, false, ◌&&◌, ◌||◌, [], ◌∷◌, Option, none, some, Str, codes, equal, ◌==◌,
  if◌then◌else◌, length,
}
use jacred_go.Base.Trim.{strip, trim_space, is_empty}
use jacred_go.Config.Values.{is_blank, contains_byte, strip_inline_comment}

-- A line: its indent, the line trimmed, and without a comment.
pub record Line : Type 0 where
  pub indent : ℕ
  pub trimmed : Str
  pub structural : Str

-- `strings.ReplaceAll(text, "\r\n", "\n")`
unfoldable pub unix_lines : Str → Str
unix_lines [] = []
unix_lines (c ∷ []) = c ∷ []
unix_lines (c ∷ d ∷ s) =
    let rest = unix_lines (d ∷ s) in if c == b'\r' && d == b'\n' then rest else c ∷ rest

abbrev pub leading_blanks : Str → ℕ
leading_blanks [] = 0
leading_blanks (c ∷ s) = let n = leading_blanks s in if c == b' ' then suc n else 0

-- A blank or a byte order mark at the end, over the reversed text.
abbrev pub mark_width : Str → ℕ
mark_width [] = 0
mark_width (a ∷ []) = if is_blank a then 1 else 0
mark_width (a ∷ b ∷ []) = if is_blank a then 1 else 0
mark_width (a ∷ b ∷ c ∷ s) =
    if is_blank a then 1 else if c == 0xef && b == 0xbb && a == 0xbf then 3 else 0

-- `strings.TrimRight(s, "\ufeff \t")`
abbrev pub trim_marks_right : Str → Str
trim_marks_right s = reverse (strip mark_width (length s) (reverse s))

-- A text that ends with a colon, without it.
abbrev pub before_colon : Str → Option Str
before_colon [] = none
before_colon (c ∷ []) = if c == b':' then some [] else none
before_colon (c ∷ d ∷ s) = elim (before_colon (d ∷ s)) [ none ↦ none | some t ↦ some (c ∷ t) ]

-- A text behind "- ".
abbrev pub after_dash : Str → Option Str
after_dash [] = none
after_dash (a ∷ []) = none
after_dash (a ∷ b ∷ s) = if a == b'-' && b == b' ' then some s else none

abbrev pub or_whole : Str → Option Str → Str
or_whole s none = s
or_whole s (some t) = t

abbrev pub is_some_text : Option Str → Bool
is_some_text none = false
is_some_text (some t) = true

abbrev pub is_skipped : Str → Bool
is_skipped [] = true
is_skipped (c ∷ s) = c == b'#' || equal (c ∷ s) (codes "---")

abbrev pub uncommented : Str → Str
uncommented t = if contains_byte b'"' t then t else strip_inline_comment t

-- What the loop reads of a line, if it looks at it at all.
unfoldable pub read_line : Str → Option Line
unfolding strip trim_space strip_inline_comment
read_line raw_line =
    let raw = trim_marks_right raw_line in
    let trimmed = trim_space raw in
    if is_skipped trimmed || is_empty (uncommented trimmed)
    then none
    else some (record {
      indent = leading_blanks raw;
      trimmed = trimmed;
      structural = uncommented trimmed;
    })
