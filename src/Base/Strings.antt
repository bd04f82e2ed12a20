-- ===== src/Base/Strings.antt =====
-- Go strings, as lists of bytes. Literals are ASCII, or are written by their UTF-8 bytes.
use Prim.Native.Char.{code}
use Prim.Native.Nat.{ℕ, compare, Ordering}
use Prim.Native.String.{String}
use mathlib.Core.Path.{◌≡◌, refl}
use mathlib.Core.Logic.{◌↔◌}
use mathlib.Core.Bool.{Bool, true, false, ◌&&◌, ◌||◌}
use mathlib.Core.List.{List, [], ◌∷◌}
use native.Mathlib.Omega.{arith}
use jacred_go.Base.Tests.{◌==◌}

abbrev pub Str : Type 0
Str = List ℕ

-- The bytes of an ASCII literal.
abbrev pub codes : String → Str
codes String.[] = []
codes (String.◌∷◌ c s) = code c ∷ codes s

-- `==` of Go strings.
abbrev pub equal : Str → Str → Bool
equal [] [] = true
equal (x ∷ xs) (y ∷ ys) = x == y && equal xs ys
equal _ _ = false

pub equal_iff : (a b : Str) → (equal a b ≡ true) ↔ (a ≡ b)
equal_iff (x ∷ a) (y ∷ b) = ground (arith, equal_iff a b)
equal_iff _ _ = ground arith

pub equal_refl : (a : Str) → equal a a ≡ true
equal_refl a = (equal_iff a a).1 refl

-- The order of Go strings, by bytes.
abbrev pub le_str : Str → Str → Bool
le_str [] ys = true
le_str (x ∷ xs) [] = false
le_str (x ∷ xs) (y ∷ ys) =
    let rest = le_str xs ys in
    elim (compare x y) [ Ordering.lt ↦ true | Ordering.eq ↦ rest | Ordering.gt ↦ false ]

abbrev pub contains : List Str → Str → Bool
contains [] s = false
contains (x ∷ xs) s = equal x s || contains xs s
