-- ===== src/Base/Dict.antt =====
-- A Go map from texts, as an association list in the order of an iteration.
use mathlib.Core.Path.{◌≡◌, refl, ◌∙◌}
use mathlib.Core.Logic.{inl, inr}
use mathlib.Core.Bool.{Bool, true, false, not, ◌&&◌, ◌||◌}
use mathlib.Core.Option.{Option, none, some}
use mathlib.Core.List.{List, [], ◌∷◌}
use native.Mathlib.Omega.{arith}
use jacred_go.Base.Strings.{Str, equal, equal_iff, equal_refl}
use jacred_go.Base.Tests.{if◌then◌else◌, Bool-cases}

module _ {ℓ} {V : Type ℓ} where
  -- `m[k]`
  unfoldable pub find : Str → List (Str × V) → Option V
  find k [] = none
  find k ((j, v) ∷ m) = if equal j k then some v else find k m

  -- `m[k] = v`
  unfoldable pub put : Str → V → List (Str × V) → List (Str × V)
  put k v [] = (k, v) ∷ []
  put k v ((j, w) ∷ m) = if equal j k then (j, v) ∷ m else (j, w) ∷ put k v m

  -- `delete(m, k)`
  unfoldable pub remove : Str → List (Str × V) → List (Str × V)
  remove k [] = []
  remove k ((j, w) ∷ m) = let rest = remove k m in if equal j k then rest else (j, w) ∷ rest

  abbrev pub is_some : Option V → Bool
  is_some none = false
  is_some (some v) = true

  -- `_, ok := m[k]`
  abbrev pub has : Str → List (Str × V) → Bool
  has k m = is_some (find k m)

  pub find-put :
      (k j : Str) (v : V) (m : List (Str × V))
      → find j (put k v m) ≡ (if equal k j then some v else find j m)
  unfolding find put
  find-put k j v [] = refl
  find-put k j v ((i, w) ∷ m) = elim (Bool-cases (equal i k)) [
    | inl y ↦ rw ((equal_iff i k).0 y, equal_refl k) (again (equal k j))
    | inr n ↦ elim (Bool-cases (equal i j)) [
      | inl y ↦
          let d : equal k j ≡ false = ground (arith, equal_iff k j, equal_iff i j, equal_iff i k) in
          rw (n, y, d) refl
      | inr d ↦ rw (n, d) (find-put k j v m)
    ]
  ]
    where
      again :
          (b : Bool)
          → (if b then some v else find j m)
            ≡ (if b then some v else if b then some w else find j m)
      again true = refl
      again false = refl

  pub find-remove :
      (k j : Str) (m : List (Str × V))
      → find j (remove k m) ≡ (if equal k j then none else find j m)
  unfolding find remove
  find-remove k j [] = none_either (equal k j)
    where
      none_either : (b : Bool) → ◌≡◌ {A = Option V} none (if b then none else none)
      none_either true = refl
      none_either false = refl
  find-remove k j ((i, w) ∷ m) = elim (Bool-cases (equal i k)) [
    | inl y ↦ rw y (find-remove k j m ∙ rw ((equal_iff i k).0 y) (again (equal k j)))
    | inr n ↦ elim (Bool-cases (equal i j)) [
      | inl y ↦
          let d : equal k j ≡ false = ground (arith, equal_iff k j, equal_iff i j, equal_iff i k) in
          rw (n, y, d) refl
      | inr d ↦ rw (n, d) (find-remove k j m)
    ]
  ]
    where
      again :
          (b : Bool)
          → (if b then none else find j m) ≡ (if b then none else if b then some w else find j m)
      again true = refl
      again false = refl

  pub has_cons :
      (k j : Str) (v : V) (m : List (Str × V)) → has j ((k, v) ∷ m) ≡ equal k j || has j m
  unfolding find
  has_cons k j v m = either (equal k j)
    where
      either : (b : Bool) → is_some (if b then some v else find j m) ≡ b || has j m
      either true = refl
      either false = refl

  pub has-put : (k j : Str) (v : V) (m : List (Str × V)) → has j (put k v m) ≡ equal k j || has j m
  has-put k j v m = rw (find-put k j v m) (either (equal k j))
    where
      either : (b : Bool) → is_some (if b then some v else find j m) ≡ b || has j m
      either true = refl
      either false = refl

  pub has-remove :
      (k j : Str) (m : List (Str × V)) → has j (remove k m) ≡ not (equal k j) && has j m
  has-remove k j m = rw (find-remove k j m) (either (equal k j))
    where
      either : (b : Bool) → is_some (if b then none else find j m) ≡ not b && has j m
      either true = refl
      either false = refl

  -- No key stands twice.
  abbrev pub IsMap : List (Str × V) → Type 0
  IsMap [] = Unit
  IsMap ((k, v) ∷ m) = (has k m ≡ false) × IsMap m

  pub put-IsMap : (k : Str) (v : V) (m : List (Str × V)) → IsMap m → IsMap (put k v m)
  unfolding put find
  put-IsMap k v [] h = (refl, tt)
  put-IsMap k v ((j, w) ∷ m) (h, hs) = elim (Bool-cases (equal j k)) [
    | inl y ↦ rw y (h, hs)
    | inr n ↦
        let d : equal k j ≡ false = ground (arith, equal_iff k j, equal_iff j k) in
        rw n (has-put k j v m ∙ rw (d, h) refl, put-IsMap k v m hs)
  ]

  pub remove-IsMap : (k : Str) (m : List (Str × V)) → IsMap m → IsMap (remove k m)
  unfolding remove
  remove-IsMap k [] h = tt
  remove-IsMap k ((j, w) ∷ m) (h, hs) = elim (Bool-cases (equal j k)) [
    | inl y ↦ rw y (remove-IsMap k m hs)
    | inr n ↦ rw n (ground (arith, has-remove k j m), remove-IsMap k m hs)
  ]

  pub absent-find : (k : Str) (m : List (Str × V)) → has k m ≡ false → find k m ≡ none
  absent-find k m h = from_test (find k m) h
    where
      from_test : (o : Option V) → is_some o ≡ false → o ≡ none
      from_test none e = refl
      from_test (some v) e = absurd (clash e)
        where
          clash : true ≡ false → ⊥
          clash c = ground arith
