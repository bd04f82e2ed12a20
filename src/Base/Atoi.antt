-- ===== src/Base/Atoi.antt =====
-- Go's `strconv.Atoi`: an optional sign and decimal digits, within the range of a 64-bit `int`.
use Prim.Native.Nat.{ℕ, zero, suc, ◌+◌, ◌-◌, ◌*◌, ◌^◌}
use mathlib.Core.Bool.{◌&&◌}
use mathlib.Core.Option.{Option, none, some}
use mathlib.Core.List.{[], ◌∷◌}
use jacred_go.Base.Strings.{Str}
use jacred_go.Base.Tests.{◌==◌, ltb, leb, if◌then◌else◌}

-- Signed integers over the native numbers: `negsuc n` is -(n + 1).
pub data ℤ : Type 0 where
  pos : ℕ → ℤ
  negsuc : ℕ → ℤ

abbrev pub negate : ℕ → ℤ
negate zero = pos 0
negate (suc n) = negsuc n

abbrev pub max_int_suc : ℕ
max_int_suc = 2 ^ 63

-- Digits, most significant first, behind the value `acc`; `none` at any other byte.
unfoldable pub digits_value : ℕ → Str → Option ℕ
digits_value acc [] = some acc
digits_value acc (c ∷ s) =
    let rest = digits_value (acc * 10 + (c - b'0')) s in
    if leb b'0' c && leb c b'9' then rest else none

abbrev pub bounded : ℕ → Option ℕ → Option ℕ
bounded limit none = none
bounded limit (some n) = if ltb n limit then some n else none

abbrev pub magnitude : ℕ → Str → Option ℕ
magnitude limit [] = none
magnitude limit (c ∷ s) = bounded limit (digits_value 0 (c ∷ s))

abbrev pub as_pos : Option ℕ → Option ℤ
as_pos none = none
as_pos (some n) = some (pos n)

abbrev pub as_neg : Option ℕ → Option ℤ
as_neg none = none
as_neg (some n) = some (negate n)

unfoldable pub atoi : Str → Option ℤ
unfolding digits_value
atoi [] = none
atoi (c ∷ s) =
    if c == b'-'
    then as_neg (magnitude (suc max_int_suc) s)
    else if c == b'+'
    then as_pos (magnitude max_int_suc s)
    else as_pos (magnitude max_int_suc (c ∷ s))
