-- ===== src/Store/Names.antt =====
-- core/stringconvert.go: `SearchName`; filedb/merge.go: `searchNameWithFallback`.
-- The texts of times (package time) and `strings.ToLower` are arguments, in `Texts`.
use jacred_go.Base.{ℕ, Bool, ◌&&◌, ◌||◌, List, [], ◌∷◌, Str, leb, ◌==◌, if◌then◌else◌}
use jacred_go.Base.Trim.{trim_space, is_empty}

-- The time layouts that `parseTimeField` reads, 0 on a text of none of them; `Format`; `ToLower`.
pub record Texts : Type 0 where
  pub parse_time : Str → ℕ
  pub format_time : ℕ → Str
  pub lower : Str → Str

abbrev is_alnum : ℕ → Bool
is_alnum c = leb b'a' c && leb c b'z' || leb b'A' c && leb c b'Z' || leb b'0' c && leb c b'9'

-- The Cyrillic letters of `searchNameRe`, by their two bytes.
abbrev is_cyrillic : ℕ → ℕ → Bool
is_cyrillic c d =
    c == 0xd0 && (leb 0x90 d && leb d 0xbf || d == 0x81)
    || c == 0xd1 && (leb 0x80 d && leb d 0x8f || d == 0x91)

-- `searchNameRe.ReplaceAllString(v, "")`: the characters that are no letter and no digit go.
pub strip_symbols : Str → Str
strip_symbols [] = []
strip_symbols (c ∷ []) = if is_alnum c then c ∷ [] else []
strip_symbols (c ∷ d ∷ s) =
    let one = strip_symbols (d ∷ s) in
    let two = strip_symbols s in
    if is_alnum c then c ∷ one else if is_cyrillic c d then c ∷ d ∷ two else one

-- The letters yo and shcha are replaced by ye and sha.
pub plain_letters : Str → Str
plain_letters [] = []
plain_letters (c ∷ []) = c ∷ []
plain_letters (c ∷ d ∷ s) =
    let one = plain_letters (d ∷ s) in
    let two = plain_letters s in
    if c == 0xd1 && d == 0x91
    then 0xd0 ∷ 0xb5 ∷ two
    else if c == 0xd1 && d == 0x89
    then 0xd1 ∷ 0x88 ∷ two
    else c ∷ one

-- `SearchName`
unfoldable pub search_name : Texts → Str → Str
unfolding strip_symbols plain_letters trim_space
search_name txt val =
    let v = plain_letters (strip_symbols (txt.lower val)) in
    if is_empty (trim_space val) then [] else if is_empty (trim_space v) then [] else v

-- `searchNameWithFallback`
unfoldable pub search_name_with_fallback : Texts → List Str → Str
unfolding search_name trim_space
search_name_with_fallback txt [] = []
search_name_with_fallback txt (v ∷ vs) =
    let rest = search_name_with_fallback txt vs in
    let sn = search_name txt (trim_space v) in
    if is_empty (trim_space v) then rest else if is_empty sn then rest else sn
