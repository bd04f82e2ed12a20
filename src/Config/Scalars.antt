-- ===== src/Config/Scalars.antt =====
-- app/config_writer.go: `yamlScalar` and what it quotes.
use jacred_go.Base.{
  ℕ, suc, Bool, true, false, ◌&&◌, ◌||◌, List, [], ◌∷◌, ◌++◌, Str, codes, contains, leb, ◌==◌,
  if◌then◌else◌, map,
}
use jacred_go.Base.Atoi.{ℤ, pos, negsuc}
use jacred_go.Base.Trim.{is_empty, lower_byte}
use jacred_go.Bencode.Decimal.{to_decimal}
use jacred_go.Config.Values.{contains_byte}

abbrev pub any_byte : (ℕ → Bool) → Str → Bool
any_byte p [] = false
any_byte p (c ∷ s) = p c || any_byte p s

-- The bytes that ask for quotes.
abbrev pub is_special : ℕ → Bool
is_special c = contains_byte c (codes ":#\"'\n\t{}[],&*!|>%@`")

abbrev pub begins_blank : Str → Bool
begins_blank [] = false
begins_blank (c ∷ s) = c == b' '

abbrev pub ends_blank : Str → Bool
ends_blank [] = false
ends_blank (c ∷ []) = c == b' '
ends_blank (c ∷ d ∷ s) = ends_blank (d ∷ s)

abbrev pub is_number_byte : ℕ → Bool
is_number_byte c = c == b'.' || c == b'e' || c == b'E'

-- The loop of `looksNumeric`: behind the first character or at it, with a digit read so far or not.
abbrev pub numeric_from : Bool → Bool → Str → Bool
numeric_from at_first has_digit [] = has_digit
numeric_from at_first has_digit (c ∷ s) =
    let digit = numeric_from false true s in
    let other = numeric_from false has_digit s in
    if leb b'0' c && leb c b'9'
    then digit
    else if (c == b'-' || c == b'+') && at_first
    then other
    else if is_number_byte c
    then other
    else false

-- `looksNumeric`
abbrev pub looks_numeric : Str → Bool
looks_numeric s = numeric_from true false s

abbrev pub reserved_words : List Str
reserved_words =
    codes "true"
    ∷ codes "false"
    ∷ codes "null"
    ∷ codes "yes"
    ∷ codes "no"
    ∷ codes "on"
    ∷ codes "off"
    ∷ codes "~"
    ∷ []

-- A byte doubled by a backslash in front.
abbrev pub escape : ℕ → Str → Str
escape b [] = []
escape b (c ∷ s) = let rest = escape b s in if c == b then b'\\' ∷ c ∷ rest else c ∷ rest

abbrev pub in_quotes : Str → Str
in_quotes s = b'"' ∷ (s ++ b'"' ∷ [])

abbrev pub wants_escapes : Str → Bool
wants_escapes s = any_byte is_special s || begins_blank s || ends_blank s

-- `yamlQuoteString`
unfoldable pub yaml_quote_string : Str → Str
yaml_quote_string s =
    if is_empty s
    then in_quotes []
    else if wants_escapes s
    then in_quotes (escape b'"' (escape b'\\' s))
    else if contains reserved_words (map lower_byte s)
    then in_quotes s
    else if looks_numeric s
    then in_quotes s
    else s

-- `yamlScalar` on its three types.
abbrev pub yaml_bool : Bool → Str
yaml_bool true = codes "true"
yaml_bool false = codes "false"

unfoldable pub yaml_int : ℤ → Str
unfolding to_decimal
yaml_int (pos n) = to_decimal n
yaml_int (negsuc n) = b'-' ∷ to_decimal (suc n)
