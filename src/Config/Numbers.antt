-- ===== src/Config/Numbers.antt =====
-- app/: an integer or a truth value that is written as a value, and what is read of it.
use jacred_go.Base.{
  ℕ, suc, ◌+◌, ◌-◌, ◌*◌, Bool, true, false, ◌||◌, [], ◌∷◌, some, Str, codes, equal, equal_iff, ltb,
  ◌==◌, ◌≡◌, ◌≢◌, refl, ap, ◌∙◌, inl, inr, arith, Bool-cases, All,
}
use jacred_go.Base.Atoi.{
  ℤ, pos, negsuc, max_int_suc, digits_value, bounded, magnitude, as_pos, as_neg, atoi,
}
use jacred_go.Base.Trim.{trim_space}
use jacred_go.Bencode.Decimal.{
  to_decimal, Digits, decimal_from-to_decimal, to_decimal-Digits, to_decimal-ne-nil,
}
use jacred_go.Bencode.Cursor.{is_digit, decimal_from}
use jacred_go.Config.Values.{strip_inline_comment, unquote, is_blank_value, int_of, parse_int_at}
use jacred_go.Config.Scalars.{any_byte, is_special, ends_blank, wants_escapes, yaml_int}
use jacred_go.Config.Quoted.{IsClean, is_clean, Reads, plain-Reads}

-- A 64-bit integer.
abbrev pub IsInt : ℤ → Type 0
IsInt (pos n) = ltb n max_int_suc ≡ true
IsInt (negsuc n) = ltb n max_int_suc ≡ true

digits_value-Digits :
    (acc : ℕ) (s : Str) → Digits s → digits_value acc s ≡ some (decimal_from acc s)
unfolding digits_value
digits_value-Digits acc [] h = refl
digits_value-Digits acc (c ∷ s) (h, hs) = rw h (digits_value-Digits (acc * 10 + (c - b'0')) s hs)

magnitude-to_decimal : (n limit : ℕ) → ltb n limit ≡ true → magnitude limit (to_decimal n) ≡ some n
magnitude-to_decimal n limit h =
    shaped (to_decimal n) (to_decimal-ne-nil n)
    ∙ ap (bounded limit) (
        digits_value-Digits 0 (to_decimal n) (to_decimal-Digits n)
        ∙ ap some (decimal_from-to_decimal n))
    ∙ rw h refl
  where
    shaped : (s : Str) → s ≢ [] → magnitude limit s ≡ bounded limit (digits_value 0 s)
    shaped [] e = absurd (e refl)
    shaped (c ∷ s) e = refl

atoi-yaml_int : (z : ℤ) → IsInt z → atoi (yaml_int z) ≡ some z
unfolding yaml_int atoi
atoi-yaml_int (pos n) h =
    unsigned (to_decimal n) (to_decimal-Digits n) (to_decimal-ne-nil n)
    ∙ ap as_pos (magnitude-to_decimal n max_int_suc h)
  where
    unsigned : (s : Str) → Digits s → s ≢ [] → atoi s ≡ as_pos (magnitude max_int_suc s)
    unsigned [] d e = absurd (e refl)
    unsigned (c ∷ s) (d, ds) e = let (m, p) = no_sign c d in rw (m, p) refl
      where
        no_sign : (c : ℕ) → is_digit c ≡ true → ((c == b'-') ≡ false) × ((c == b'+') ≡ false)
        no_sign c d = (ground arith, ground arith)
atoi-yaml_int (negsuc n) h =
    ap as_neg (magnitude-to_decimal (suc n) (suc max_int_suc) (ground arith))

-- The texts of integers are plain ones.
abbrev pub is_numeral : ℕ → Bool
is_numeral c = is_digit c || c == b'-'

pub numerals : (z : ℤ) → All (λ c. is_numeral c ≡ true) (yaml_int z)
unfolding yaml_int
numerals (pos n) = of_digits (to_decimal n) (to_decimal-Digits n)
  where
    of_digits : (s : Str) → Digits s → All (λ c. is_numeral c ≡ true) s
    of_digits [] h = tt
    of_digits (c ∷ s) (h, hs) = (rw h refl, of_digits s hs)
numerals (negsuc n) = (refl, of_digits (to_decimal (suc n)) (to_decimal-Digits (suc n)))
  where
    of_digits : (s : Str) → Digits s → All (λ c. is_numeral c ≡ true) s
    of_digits [] h = tt
    of_digits (c ∷ s) (h, hs) = (rw h refl, of_digits s hs)

pub numeral_lem :
    (c : ℕ)
    → is_numeral c ≡ true
    → (is_clean c ≡ true)
      × (is_special c ≡ false)
      × ((c == b' ') ≡ false)
      × ((c == b'n') ≡ false)
      × ((c == b'~') ≡ false)
numeral_lem c h = (ground arith, ground arith, ground arith, ground arith, ground arith)

pub numerals-IsClean : (s : Str) → All (λ c. is_numeral c ≡ true) s → IsClean s
numerals-IsClean [] h = tt
numerals-IsClean (c ∷ s) (h, hs) = ((numeral_lem c h).0, numerals-IsClean s hs)

pub numerals-any : (s : Str) → All (λ c. is_numeral c ≡ true) s → any_byte is_special s ≡ false
numerals-any [] h = refl
numerals-any (c ∷ s) (h, hs) = rw ((numeral_lem c h).1, numerals-any s hs) refl

pub numerals-ends : (s : Str) → All (λ c. is_numeral c ≡ true) s → ends_blank s ≡ false
numerals-ends [] h = refl
numerals-ends (c ∷ []) (h, hs) = (numeral_lem c h).2
numerals-ends (c ∷ d ∷ s) (h, hs) = numerals-ends (d ∷ s) hs

-- A text that does not begin like another one.
pub other_head : (c d : ℕ) (s t : Str) → (c == d) ≡ false → equal (c ∷ s) (d ∷ t) ≡ false
other_head c d s t n = elim (Bool-cases (equal (c ∷ s) (d ∷ t))) [
  | inl y ↦ absurd (clash (ap head ((equal_iff (c ∷ s) (d ∷ t)).0 y)))
  | inr m ↦ m
]
  where
    head : Str → ℕ
    head [] = 0
    head (c ∷ x) = c

    clash : c ≡ d → ⊥
    clash e = ground arith

pub numerals-Reads :
    (s : Str) → s ≢ [] → All (λ c. is_numeral c ≡ true) s → Reads s s × (is_blank_value s ≡ false)
numerals-Reads [] e h = absurd (e refl)
numerals-Reads (c ∷ s) e (h, hs) =
    let (clean, special, blank, n, tilde) = numeral_lem c h in
    let not_null : equal (c ∷ s) (codes "null") ≡ false = other_head c b'n' s (codes "ull") n in
    let plain : wants_escapes (c ∷ s) ≡ false =
      rw (numerals-any (c ∷ s) (h, hs), blank, numerals-ends (c ∷ s) (h, hs)) refl in
    (
      plain-Reads c s (numerals-IsClean (c ∷ s) (h, hs)) plain not_null,
      rw (not_null, other_head c b'~' s [] tilde) refl,
    )

pub yaml_int-ne-nil : (z : ℤ) → yaml_int z ≢ []
unfolding yaml_int
yaml_int-ne-nil (pos n) = to_decimal-ne-nil n
yaml_int-ne-nil (negsuc n) = λ e. ground arith

parse_int_at-unquote : (v : Str) → parse_int_at v ≡ int_of (unquote v)
unfolding parse_int_at unquote
parse_int_at-unquote v = elim (Bool-cases (equal (trim_space v) (codes "null"))) [
  | inl y ↦ rw (y, (equal_iff (trim_space v) (codes "null")).0 y) refl
  | inr n ↦ rw n refl
]

-- A 64-bit integer that is written is read back by `parseIntAt`, behind a blank as it stands in a line.
pub parse_int_at-yaml_int :
    (z : ℤ) → IsInt z → parse_int_at (strip_inline_comment (b' ' ∷ yaml_int z)) ≡ z
parse_int_at-yaml_int z h =
    let ((a, b, u), n) = numerals-Reads (yaml_int z) (yaml_int-ne-nil z) (numerals z) in
    parse_int_at-unquote (strip_inline_comment (b' ' ∷ yaml_int z))
    ∙ ap (λ (x : Str). int_of (unquote x)) b
    ∙ ap int_of u
    ∙ rw (n, atoi-yaml_int z h) refl
