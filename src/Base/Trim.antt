-- ===== src/Base/Trim.antt =====
-- Go's `strings.TrimSpace`, over the UTF-8 bytes of a text, and `strings.ToLower` on ASCII.
use mathlib.Core.List.{reverse}
use jacred_go.Base.Strings.{Str}
use jacred_go.Base.Lists.{length, drop}
use jacred_go.Base.Tests.{◌==◌, leb, if◌then◌else◌}
use Prim.Native.Nat.{ℕ, zero, suc, ◌+◌}
use mathlib.Core.Bool.{Bool, true, false, ◌&&◌, ◌||◌}
use mathlib.Core.List.{[], ◌∷◌}

-- `unicode.IsSpace`, by the bytes of the character.
abbrev pub is_space : ℕ → Bool
is_space c = leb 9 c && leb c 13 || c == b' '

abbrev pub is_space_2 : ℕ → ℕ → Bool
is_space_2 a b = a == 0xc2 && (b == 0x85 || b == 0xa0)

abbrev pub is_space_3 : ℕ → ℕ → ℕ → Bool
is_space_3 a b c =
    a == 0xe1 && b == 0x9a && c == 0x80
    || a == 0xe2 && b == 0x80 && (leb 0x80 c && leb c 0x8a || c == 0xa8 || c == 0xa9 || c == 0xaf)
    || a == 0xe2 && b == 0x81 && c == 0x9f
    || a == 0xe3 && b == 0x80 && c == 0x80

-- How many bytes of white space a text begins with, for one character; 0 for none.
abbrev pub space_width : Str → ℕ
space_width [] = 0
space_width (a ∷ []) = if is_space a then 1 else 0
space_width (a ∷ b ∷ []) = if is_space a then 1 else if is_space_2 a b then 2 else 0
space_width (a ∷ b ∷ c ∷ s) =
    if is_space a then 1 else if is_space_2 a b then 2 else if is_space_3 a b c then 3 else 0

-- The same at the end, over the reversed text.
abbrev pub space_width_back : Str → ℕ
space_width_back [] = 0
space_width_back (a ∷ []) = if is_space a then 1 else 0
space_width_back (a ∷ b ∷ []) = if is_space a then 1 else if is_space_2 b a then 2 else 0
space_width_back (a ∷ b ∷ c ∷ s) =
    if is_space a then 1 else if is_space_2 b a then 2 else if is_space_3 c b a then 3 else 0

unfoldable pub strip : (Str → ℕ) → ℕ → Str → Str
strip width zero s = s
strip width (suc f) s = elim (width s) [ zero ↦ s | suc w ↦ strip width f (drop (suc w) s) ]

unfoldable pub trim_left : Str → Str
unfolding strip
trim_left s = strip space_width (length s) s

unfoldable pub trim_right : Str → Str
unfolding strip
trim_right s = reverse (strip space_width_back (length s) (reverse s))

unfoldable pub trim_space : Str → Str
unfolding trim_left trim_right
trim_space s = trim_right (trim_left s)

abbrev pub is_empty : Str → Bool
is_empty [] = true
is_empty (_ ∷ _) = false

abbrev pub lower_byte : ℕ → ℕ
lower_byte c = if leb b'A' c && leb c b'Z' then c + 32 else c
