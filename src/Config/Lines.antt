-- ===== src/Config/Lines.antt =====
-- app/config.go: what is read of a line of a key and a value, as the writer makes it.
use jacred_go.Base.{
  ℕ, Bool, true, false, ◌&&◌, ◌||◌, [], ◌∷◌, ◌++◌, none, some, Str, codes, leb, ◌==◌, ◌≡◌, ◌⊎◌,
  refl, ap, ◌∙◌, inl, inr, arith, Bool-cases, ==_iff, All, length,
}
use jacred_go.Base.Trim.{trim_space}
use jacred_go.Base.Trimmed.{is_visible, last_byte, trim_space_kept}
use jacred_go.Config.Values.{
  is_blank, contains_byte, before_comment, strip_trimmed, strip_inline_comment, at_colon,
  key_and_value, split_kv,
}
use jacred_go.Config.LineText.{trim_marks_right, uncommented, read_line, before_colon}
use jacred_go.Config.Writer.{indented, key_line}
use jacred_go.Config.Numbers.{other_head}
use jacred_go.Config.Blanks.{
  leading_blanks-indented, trim_marks-indented, trim_marks_kept, trim_space-indented,
}

-- What a value looks like at its ends, and that it has no comment.
abbrev pub IsValue : Str → Type 0
IsValue [] = ⊥
IsValue (d ∷ w) =
    (is_visible (last_byte d w) ≡ true)
    × ((last_byte d w == b':') ≡ false)
    × ((contains_byte b'"' (d ∷ w) ≡ true) ⊎ All (λ c. (c == b'#') ≡ false) (d ∷ w))

abbrev pub is_key_byte : ℕ → Bool
is_key_byte c =
    leb b'a' c && leb c b'z' || leb b'A' c && leb c b'Z' || leb b'0' c && leb c b'9' || c == b'_'

abbrev pub IsKey : Str → Type 0
IsKey [] = ⊥
IsKey (c ∷ s) = All (λ c. is_key_byte c ≡ true) (c ∷ s)

key_byte_lem :
    (c : ℕ)
    → is_key_byte c ≡ true
    → (is_visible c ≡ true)
      × ((c == b'#') ≡ false)
      × ((c == b'"') ≡ false)
      × ((c == b':') ≡ false)
      × ((c == b'-') ≡ false)
key_byte_lem c h = (ground arith, ground arith, ground arith, ground arith, ground arith)

no_hash-kept : (b : Bool) (s : Str) → All (λ c. (c == b'#') ≡ false) s → before_comment b s ≡ s
unfolding before_comment
no_hash-kept b [] h = refl
no_hash-kept b (c ∷ s) (h, hs) = rw h (ap (λ (x : Str). c ∷ x) (no_hash-kept (is_blank c) s hs))

uncommented-kept :
    (c : ℕ) (s : Str)
    → is_visible c ≡ true
    → is_visible (last_byte c s) ≡ true
    → (c == b'"') ≡ false
    → (contains_byte b'"' (c ∷ s) ≡ true) ⊎ All (λ c. (c == b'#') ≡ false) (c ∷ s)
    → uncommented (c ∷ s) ≡ c ∷ s
unfolding strip_inline_comment
uncommented-kept c s h k q (inl y) = rw y refl
uncommented-kept c s h k q (inr all) = elim (Bool-cases (contains_byte b'"' (c ∷ s))) [
  | inl y ↦ rw y refl
  | inr n ↦
      let e : (length (c ∷ s) == length (c ∷ s)) ≡ true =
        (==_iff (length (c ∷ s)) (length (c ∷ s))).1 refl in
      rw n
        (ap strip_trimmed (trim_space_kept c s h k) ∙ rw (q, no_hash-kept true (c ∷ s) all, e) refl)
]

before_colon-none :
    (c : ℕ) (s : Str) → (last_byte c s == b':') ≡ false → before_colon (c ∷ s) ≡ none
before_colon-none c [] h = rw h refl
before_colon-none c (d ∷ s) h = rw (before_colon-none d s h) refl

-- The parts of such a line.
last_byte-append : (c : ℕ) (s : Str) (d : ℕ) (w : Str) → last_byte c (s ++ d ∷ w) ≡ last_byte d w
last_byte-append c [] d w = refl
last_byte-append c (e ∷ s) d w = last_byte-append e s d w

at_colon-key :
    (s v : Str) → All (λ c. is_key_byte c ≡ true) s → at_colon (s ++ b':' ∷ v) ≡ some (s, v)
unfolding at_colon
at_colon-key [] v h = refl
at_colon-key (c ∷ s) v (h, hs) =
    let (a, b, q, n, e) = key_byte_lem c h in rw (n, at_colon-key s v hs) refl

last-key :
    (c : ℕ) (s : Str) → All (λ c. is_key_byte c ≡ true) (c ∷ s) → is_visible (last_byte c s) ≡ true
last-key c [] (h, hs) = (key_byte_lem c h).0
last-key c (d ∷ s) (h, hs) = last-key d s hs

pub split_kv-key_line :
    (key v : Str) → IsKey key → split_kv (key_line key v) ≡ (key, strip_inline_comment (b' ' ∷ v))
unfolding split_kv
split_kv-key_line [] v h = absurd h
split_kv-key_line (c ∷ s) v h =
    let whole : Str = c ∷ (s ++ b':' ∷ b' ' ∷ v) in
    ap (key_and_value whole) (at_colon-key (c ∷ s) (b' ' ∷ v) h)
    ∙ ap (λ (k : Str). (k, strip_inline_comment (b' ' ∷ v)))
        (trim_space_kept c s (key_byte_lem c h.0).0 (last-key c s h))

contains_byte-append :
    (b : ℕ) (s t : Str) → contains_byte b t ≡ true → contains_byte b (s ++ t) ≡ true
contains_byte-append b [] t h = h
contains_byte-append b (c ∷ s) t h = ground (arith, contains_byte-append b s t h)

pub contains_colon-key_line : (key v : Str) → contains_byte b':' (key_line key v) ≡ true
contains_colon-key_line key v = contains_byte-append b':' key (b':' ∷ b' ' ∷ v) refl

no_hash-append :
    (s t : Str)
    → All (λ c. is_key_byte c ≡ true) s
    → All (λ c. (c == b'#') ≡ false) t
    → All (λ c. (c == b'#') ≡ false) (s ++ t)
no_hash-append [] t h k = k
no_hash-append (c ∷ s) t (h, hs) k = ((key_byte_lem c h).1, no_hash-append s t hs k)

-- The line of a key and a value, at any indent.
pub read_line-key_line :
    (n : ℕ) (key v : Str)
    → IsKey key
    → IsValue v
    → (read_line (indented n (key_line key v))
        ≡ some (record { indent = n; trimmed = key_line key v; structural = key_line key v }))
      × (before_colon (key_line key v) ≡ none)
unfolding read_line
read_line-key_line n [] v h k = absurd h
read_line-key_line n (c ∷ s) [] h k = absurd k
read_line-key_line n (c ∷ s) (d ∷ w) h (seen, colon, hash) =
    let (vis, sharp, q, col, dash) = key_byte_lem c h.0 in
    let seen_last : is_visible (last_byte c rest) ≡ true = rw last seen in
    let colon_last : (last_byte c rest == b':') ≡ false = rw last colon in
    let kept : uncommented (c ∷ rest) ≡ c ∷ rest =
      uncommented-kept c rest vis seen_last q (whole hash) in
    let marks : trim_marks_right (indented n (c ∷ rest)) ≡ indented n (c ∷ rest) =
      trim_marks-indented n c rest seen_last in
    let trimmed : trim_space (indented n (c ∷ rest)) ≡ c ∷ rest =
      trim_space-indented n c rest vis seen_last in
    (
      rw
          (
            marks,
            trimmed,
            sharp,
            other_head c b'-' rest (codes "--") dash,
            kept,
            leading_blanks-indented n c rest vis,
          )
          refl,
      before_colon-none c rest colon_last,
    )
  where
    rest : Str
    rest = s ++ b':' ∷ b' ' ∷ d ∷ w

    last : last_byte c rest ≡ last_byte d w
    last = last_byte-append c s b':' (b' ' ∷ d ∷ w)

    whole :
        (contains_byte b'"' (d ∷ w) ≡ true) ⊎ All (λ c. (c == b'#') ≡ false) (d ∷ w)
        → (contains_byte b'"' (c ∷ rest) ≡ true) ⊎ All (λ c. (c == b'#') ≡ false) (c ∷ rest)
    whole (inl y) = inl (contains_byte-append b'"' (c ∷ s) (b':' ∷ b' ' ∷ d ∷ w) y)
    whole (inr a) = inr (no_hash-append (c ∷ s) (b':' ∷ b' ' ∷ d ∷ w) h (refl, (refl, a)))

-- The header of a section.
pub read_line-header :
    (name : Str)
    → IsKey name
    → (read_line (name ++ b':' ∷ [])
        ≡ some (record { indent = 0; trimmed = name ++ b':' ∷ []; structural = name ++ b':' ∷ [] }))
      × (before_colon (name ++ b':' ∷ []) ≡ some name)
unfolding read_line
read_line-header [] h = absurd h
read_line-header (c ∷ s) h =
    let (vis, sharp, q, col, dash) = key_byte_lem c h.0 in
    let seen_last : is_visible (last_byte c rest) ≡ true = rw last refl in
    let kept : uncommented (c ∷ rest) ≡ c ∷ rest =
      uncommented-kept c rest vis seen_last q
        (inr (no_hash-append (c ∷ s) (b':' ∷ []) h (refl, tt))) in
    (
      rw
          (
            trim_marks_kept c rest seen_last,
            trim_space_kept c rest vis seen_last,
            sharp,
            other_head c b'-' rest (codes "--") dash,
            kept,
            leading_blanks-indented 0 c rest vis,
          )
          refl,
      named c s,
    )
  where
    rest : Str
    rest = s ++ b':' ∷ []

    last : last_byte c rest ≡ b':'
    last = last_byte-append c s b':' []

    named : (c : ℕ) (s : Str) → before_colon (c ∷ (s ++ b':' ∷ [])) ≡ some (c ∷ s)
    named c [] = refl
    named c (d ∷ s) = rw (named d s) refl

-- The same as a test.
abbrev pub are_key_bytes : Str → Bool
are_key_bytes [] = true
are_key_bytes (c ∷ s) = is_key_byte c && are_key_bytes s

are_key_bytes-All : (s : Str) → are_key_bytes s ≡ true → All (λ c. is_key_byte c ≡ true) s
are_key_bytes-All [] h = tt
are_key_bytes-All (c ∷ s) h = (ground arith, are_key_bytes-All s (ground arith))

abbrev pub is_key : Str → Bool
is_key [] = false
is_key (c ∷ s) = are_key_bytes (c ∷ s)

pub is_key-IsKey : (s : Str) → is_key s ≡ true → IsKey s
is_key-IsKey [] h = ground arith
is_key-IsKey (c ∷ s) h = are_key_bytes-All (c ∷ s) h
