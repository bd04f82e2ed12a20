-- ===== src/Base/Unique.antt =====
-- A list of texts that is grown without duplicates, and what it holds.
use mathlib.Core.Path.{◌≡◌, refl, ap}
use mathlib.Core.Bool.{true, false, not, ◌&&◌, ◌||◌}
use mathlib.Core.List.{List, [], ◌∷◌, ◌++◌}
use mathlib.Core.Logic.{inl, inr}
use native.Mathlib.Omega.{arith}
use jacred_go.Base.Strings.{Str, equal, equal_iff, contains}
use jacred_go.Base.Tests.{if◌then◌else◌, Bool-cases}
use jacred_go.Base.Trim.{is_empty}
use jacred_go.Base.Sort.{HasNoDuplicate, equal_sym}

-- A text at the end of a list, unless it is empty or there already.
abbrev pub add_unique : List Str → Str → List Str
add_unique uniq t = if is_empty t || contains uniq t then uniq else uniq ++ t ∷ []

pub contains-concat :
    (xs : List Str) (t s : Str) → contains (xs ++ t ∷ []) s ≡ contains xs s || equal t s
contains-concat [] t s = ground arith
contains-concat (x ∷ xs) t s = ground (arith, contains-concat xs t s)

contains-equal : (xs : List Str) (t s : Str) → equal t s ≡ true → contains xs t ≡ contains xs s
contains-equal xs t s e = ap (contains xs) ((equal_iff t s).0 e)

pub contains-add_unique :
    (uniq : List Str) (t s : Str)
    → contains (add_unique uniq t) s ≡ contains uniq s || (equal t s && not (is_empty s))
contains-add_unique uniq [] [] = ground arith
contains-add_unique uniq [] (_ ∷ _) = ground arith
contains-add_unique uniq (x ∷ t) [] = ground (arith, contains-concat uniq (x ∷ t) [])
contains-add_unique uniq (x ∷ t) (y ∷ s) =
    ground (arith, contains-equal uniq (x ∷ t) (y ∷ s), contains-concat uniq (x ∷ t) (y ∷ s))

HasNoDuplicate-concat :
    (xs : List Str) (t : Str)
    → HasNoDuplicate xs
    → contains xs t ≡ false
    → HasNoDuplicate (xs ++ t ∷ [])
HasNoDuplicate-concat [] t h n = (refl, tt)
HasNoDuplicate-concat (x ∷ xs) t h n = (
  ground (arith, contains-concat xs t x, equal_sym t x),
  HasNoDuplicate-concat xs t h.1 (ground arith),
)

pub add_unique-HasNoDuplicate :
    (uniq : List Str) (t : Str) → HasNoDuplicate uniq → HasNoDuplicate (add_unique uniq t)
add_unique-HasNoDuplicate uniq [] h = h
add_unique-HasNoDuplicate uniq (x ∷ t) h = elim (Bool-cases (contains uniq (x ∷ t))) [
  | inl seen ↦ rw seen h
  | inr new ↦ rw new (HasNoDuplicate-concat uniq (x ∷ t) h new)
]
