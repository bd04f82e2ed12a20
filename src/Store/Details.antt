-- ===== src/Store/Details.antt =====
-- filedb/filedb.go: `TorrentDetails`, a map from keys to values of any type, and how values are read.
use jacred_go.Base.{
  ℕ, ◌+◌, ◌-◌, ◌*◌, ◌^◌, ◌≡◌, refl, false, ◌&&◌, List, [], ◌∷◌, Option, none, some, Str, equal, ltb,
  leb, ◌==◌, if◌then◌else◌, map, Bool-cases, inl, inr, equal_iff, equal_refl, arith,
}
use jacred_go.Base.Atoi.{ℤ, pos, negate}
use jacred_go.Base.Trim.{trim_space}

-- A value that holds no list. Floats, JSON numbers and all else are `other`; the type `O` of these is
-- given with what Go's conversions make of them.
pub data Scalar (O : Type 0) : Type 0 where
  null : Scalar O
  text : Str → Scalar O
  int : ℤ → Scalar O
  int64 : ℤ → Scalar O
  other : O → Scalar O

-- `any`: a list is a `[]string` or a `[]any`.
pub data Val (O : Type 0) : Type 0 where
  scalar : Scalar O → Val O
  strings : List Str → Val O
  items : List (Scalar O) → Val O

-- What Go makes of the values that are no text and no `int`: `fmt.Sprint`, and what `asInt` and `asInt64`
-- make of floats and JSON numbers.
pub record Conversions (O : Type 0) : Type 0 where
  pub sprint : Val O → Str
  pub to_int : O → ℤ
  pub to_int64 : O → ℤ

-- `TorrentDetails`
abbrev pub Details : Type 0 → Type 0
Details O = List (Str × Val O)

-- The digits of an integer behind the value `acc`. The walk stops at the first digit that takes the
-- value past 64 bits; another byte before that is an error.
unfoldable pub clamped_digits : ℕ → Str → Option ℕ
clamped_digits acc [] = some acc
clamped_digits acc (c ∷ s) =
    let n = acc * 10 + (c - b'0') in
    let rest = clamped_digits n s in
    if leb b'0' c && leb c b'9' then (if leb (2 ^ 64) n then some (2 ^ 64) else rest) else none

abbrev clamped_magnitude : ℕ → Str → ℕ
clamped_magnitude limit [] = 0
clamped_magnitude limit (c ∷ s) = elim (clamped_digits 0 (c ∷ s)) [
  | none ↦ 0
  | some n ↦ (if ltb limit n then limit else n)
]

-- The number of `strconv.Atoi`, its error dropped: 0 on what is no integer, and the nearest `int` on
-- what is too large.
unfoldable pub atoi_or_zero : Str → ℤ
unfolding clamped_digits
atoi_or_zero [] = pos 0
atoi_or_zero (c ∷ s) =
    if c == b'-'
    then negate (clamped_magnitude (2 ^ 63) s)
    else if c == b'+'
    then pos (clamped_magnitude (2 ^ 63 - 1) s)
    else pos (clamped_magnitude (2 ^ 63 - 1) (c ∷ s))

module _ {O : Type 0} where
  -- `m[key]`, and `nil` on a missing key.
  unfoldable pub get : Str → Details O → Val O
  get k [] = scalar null
  get k ((j, v) ∷ m) = if equal j k then v else get k m

  -- `m[key] = v`
  unfoldable pub put : Str → Val O → Details O → Details O
  put k v [] = (k, v) ∷ []
  put k v ((j, w) ∷ m) = if equal j k then (j, v) ∷ m else (j, w) ∷ put k v m

  -- `delete(m, key)`
  unfoldable pub delete : Str → Details O → Details O
  delete k [] = []
  delete k ((j, w) ∷ m) = let rest = delete k m in if equal j k then rest else (j, w) ∷ rest

  -- `asString`
  unfoldable pub as_string : Conversions O → Val O → Str
  as_string go (scalar (text s)) = s
  as_string go (scalar null) = []
  as_string go v = go.sprint v

  -- `asInt`
  unfoldable pub as_int : Conversions O → Val O → ℤ
  unfolding atoi_or_zero trim_space
  as_int go (scalar (int n)) = n
  as_int go (scalar (text s)) = atoi_or_zero (trim_space s)
  as_int go (scalar (other x)) = go.to_int x
  as_int go _ = pos 0

  -- `asInt64`
  unfoldable pub as_int64 : Conversions O → Val O → ℤ
  as_int64 go (scalar (int64 n)) = n
  as_int64 go (scalar (int n)) = n
  as_int64 go (scalar (other x)) = go.to_int64 x
  as_int64 go _ = pos 0

  -- `asStringSlice`
  unfoldable pub as_string_slice : Conversions O → Val O → List Str
  unfolding as_string
  as_string_slice go (items xs) = map (λ x. as_string go (scalar x)) xs
  as_string_slice go (strings ss) = ss
  as_string_slice go (scalar x) = []

  pub get-put : (k : Str) (v : Val O) (m : Details O) → get k (put k v m) ≡ v
  unfolding get put
  get-put k v [] = ground (arith, equal_refl k)
  get-put k v ((j, w) ∷ m) = elim (Bool-cases (equal j k)) [
    | inl y ↦ rw (y, y) refl
    | inr n ↦ rw (n, n) (get-put k v m)
  ]

  -- A write at one key is not seen at another.
  pub get-put_other :
      (i k : Str) (v : Val O) (m : Details O) → equal k i ≡ false → get i (put k v m) ≡ get i m
  unfolding get put
  get-put_other i k v [] d = rw d refl
  get-put_other i k v ((j, w) ∷ m) d = elim (Bool-cases (equal j k)) [
    | inl y ↦ let e : equal j i ≡ false = rw ((equal_iff j k).0 y) d in rw (y, e) refl
    | inr n ↦ elim (Bool-cases (equal j i)) [
      | inl y ↦ rw (n, y) refl
      | inr m2 ↦ rw (n, m2) (get-put_other i k v m d)
    ]
  ]

  pub get-delete : (k : Str) (m : Details O) → get k (delete k m) ≡ scalar null
  unfolding get delete
  get-delete k [] = refl
  get-delete k ((j, w) ∷ m) = elim (Bool-cases (equal j k)) [
    | inl y ↦ rw y (get-delete k m)
    | inr n ↦ rw (n, n) (get-delete k m)
  ]

  pub get-delete_other :
      (i k : Str) (m : Details O) → equal k i ≡ false → get i (delete k m) ≡ get i m
  unfolding get delete
  get-delete_other i k [] d = refl
  get-delete_other i k ((j, w) ∷ m) d = elim (Bool-cases (equal j k)) [
    | inl y ↦
        let e : equal j i ≡ false = rw ((equal_iff j k).0 y) d in
        rw (y, e) (get-delete_other i k m d)
    | inr n ↦ elim (Bool-cases (equal j i)) [
      | inl y ↦ rw (n, y) refl
      | inr m2 ↦ rw (n, m2) (get-delete_other i k m d)
    ]
  ]
