-- ===== src/Base/Sort.antt =====
-- `sort.Strings` as insertion sort, with what it keeps.
use mathlib.Core.Path.{◌≡◌, refl, ◌∙◌}
use mathlib.Core.Bool.{Bool, true, false, ◌&&◌, ◌||◌, not}
use mathlib.Core.List.{List, [], ◌∷◌}
use mathlib.Core.Logic.{inl, inr}
use native.Mathlib.Omega.{arith}
use jacred_go.Base.Strings.{Str, equal, le_str, contains}
use jacred_go.Base.Tests.{if◌then◌else◌, Bool-cases}

pub insert : Str → List Str → List Str
insert x [] = x ∷ []
insert x (y ∷ ys) = if le_str x y then x ∷ y ∷ ys else y ∷ insert x ys

unfoldable pub sort_strings : List Str → List Str
unfolding insert
sort_strings [] = []
sort_strings (x ∷ xs) = insert x (sort_strings xs)

contains-insert :
    (x s : Str) (ys : List Str) → contains (insert x ys) s ≡ equal x s || contains ys s
unfolding insert
contains-insert x s [] = refl
contains-insert x s (y ∷ ys) = ground (arith, contains-insert x s ys)

pub contains-sort_strings : (xs : List Str) (s : Str) → contains (sort_strings xs) s ≡ contains xs s
unfolding sort_strings
contains-sort_strings [] s = refl
contains-sort_strings (x ∷ xs) s =
    ground (arith, contains-insert x s (sort_strings xs), contains-sort_strings xs s)

-- Before, and not the same.
abbrev pub lt_str : Str → Str → Bool
lt_str a b = le_str a b && not (equal a b)

pub le_str_total : (a b : Str) → le_str a b ≡ false → le_str b a ≡ true
le_str_total [] b h = cc
le_str_total (x ∷ a) [] h = refl
le_str_total (x ∷ a) (y ∷ b) h = ground (arith, le_str_total a b)

pub equal_sym : (a b : Str) → equal a b ≡ equal b a
equal_sym [] [] = refl
equal_sym [] (y ∷ b) = refl
equal_sym (x ∷ a) [] = refl
equal_sym (x ∷ a) (y ∷ b) = ground (arith, equal_sym a b)

abbrev pub IsAfter : Str → List Str → Type 0
IsAfter x [] = Unit
IsAfter x (y ∷ ys) = lt_str x y ≡ true

-- Each text is before the next: in order, with no duplicate.
abbrev pub IsIncreasing : List Str → Type 0
IsIncreasing [] = Unit
IsIncreasing (x ∷ xs) = IsAfter x xs × IsIncreasing xs

abbrev pub HasNoDuplicate : List Str → Type 0
HasNoDuplicate [] = Unit
HasNoDuplicate (x ∷ xs) = (contains xs x ≡ false) × HasNoDuplicate xs

insert-IsAfter :
    (z x : Str) (ys : List Str) → lt_str z x ≡ true → IsAfter z ys → IsAfter z (insert x ys)
unfolding insert
insert-IsAfter z x [] h k = h
insert-IsAfter z x (y ∷ ys) h k = elim (Bool-cases (le_str x y)) [
  | inl le ↦ rw le h
  | inr gt ↦ rw gt k
]

insert-IsIncreasing :
    (x : Str) (ys : List Str) → contains ys x ≡ false → IsIncreasing ys → IsIncreasing (insert x ys)
unfolding insert
insert-IsIncreasing x [] n h = (tt, tt)
insert-IsIncreasing x (y ∷ ys) n h = elim (Bool-cases (le_str x y)) [
  | inl le ↦ rw le (ground (arith, equal_sym x y), h)
  | inr gt ↦ rw gt (
    insert-IsAfter y x ys (ground (arith, le_str_total x y)) h.0,
    insert-IsIncreasing x ys (ground arith) h.1,
  )
]

pub sort_strings-IsIncreasing : (xs : List Str) → HasNoDuplicate xs → IsIncreasing (sort_strings xs)
unfolding sort_strings
sort_strings-IsIncreasing [] h = tt
sort_strings-IsIncreasing (x ∷ xs) h =
    insert-IsIncreasing x (sort_strings xs) (contains-sort_strings xs x ∙ h.0)
      (sort_strings-IsIncreasing xs h.1)
