-- ===== src/Config/Quoted.antt =====
-- app/: a text that is written as a value, and what is read of it.
use mathlib.Core.List.{reverse, reverse-append}
use jacred_go.Base.{
  ℕ, suc, Bool, true, false, not, ◌&&◌, [], ◌∷◌, ◌++◌, Str, codes, equal, equal_iff, contains, leb,
  ◌==◌, ◌≡◌, refl, ap, sym, ◌∙◌, inl, inr, arith, Bool-cases, ==_iff, All, map, length,
}
use jacred_go.Base.Trim.{strip, trim_space, lower_byte}
use jacred_go.Base.Trimmed.{
  is_visible, last_byte, strip_stops, reverse-strip, trim_space_kept, trim_space_blank,
}
use jacred_go.Config.Values.{
  is_blank, quote_width, trim_quotes, quoted, before_comment, strip_trimmed, strip_inline_comment,
  unquote,
}
use jacred_go.Config.Scalars.{
  any_byte, is_special, ends_blank, in_quotes, wants_escapes, reserved_words, looks_numeric, escape,
  yaml_quote_string,
}

-- A printable ASCII character that is no double quote and no backslash.
abbrev pub is_clean : ℕ → Bool
is_clean c = leb 32 c && leb c 126 && not (c == b'"') && not (c == b'\\')

abbrev pub IsClean : Str → Type 0
IsClean s = All (λ c. is_clean c ≡ true) s

escape-clean : (b : ℕ) (s : Str) → All (λ c. (c == b) ≡ false) s → escape b s ≡ s
escape-clean b [] h = refl
escape-clean b (c ∷ s) (h, hs) = rw (h, escape-clean b s hs) refl

clean_ne : (c : ℕ) → is_clean c ≡ true → ((c == b'"') ≡ false) × ((c == b'\\') ≡ false)
clean_ne c h = (ground arith, ground arith)

quoted-clean : (s : Str) → IsClean s → quoted (s ++ b'"' ∷ []) ≡ s ++ b'"' ∷ []
unfolding quoted
quoted-clean [] h = refl
quoted-clean (c ∷ []) (h, hs) = let (q, b) = clean_ne c h in rw (q, b) refl
quoted-clean (c ∷ d ∷ s) (h, hs) =
    let (q, b) = clean_ne c h in rw (q, b) (ap (λ (x : Str). c ∷ x) (quoted-clean (d ∷ s) hs))

pub last_byte-quote : (c : ℕ) (s : Str) → last_byte c (s ++ b'"' ∷ []) ≡ b'"'
last_byte-quote c [] = refl
last_byte-quote c (d ∷ s) = last_byte-quote d s

pub last_byte-clean :
    (c : ℕ) (s : Str) → is_clean c ≡ true → IsClean s → is_clean (last_byte c s) ≡ true
last_byte-clean c [] h k = h
last_byte-clean c (d ∷ s) h (k, ks) = last_byte-clean d s k ks

pub ends_blank-last : (c : ℕ) (s : Str) → ends_blank (c ∷ s) ≡ (last_byte c s == b' ')
ends_blank-last c [] = refl
ends_blank-last c (d ∷ s) = ends_blank-last d s

-- A clean text in quotes, read.
quoted_width : (c : ℕ) (s : Str) → is_clean c ≡ true → quote_width (c ∷ s) ≡ 0
quoted_width c s h = let (q, b) = clean_ne c h in rw q refl

trim_quotes-in_quotes : (s : Str) → IsClean s → trim_quotes (in_quotes s) ≡ s
unfolding trim_quotes strip
trim_quotes-in_quotes [] h = refl
trim_quotes-in_quotes (c ∷ s) (h, hs) =
    rw
      (strip_stops quote_width (suc (length (s ++ b'"' ∷ []))) (c ∷ (s ++ b'"' ∷ []))
        (quoted_width c (s ++ b'"' ∷ []) h))
      (ap (λ (x : Str). reverse (strip quote_width (suc (length (s ++ b'"' ∷ []))) x))
          (reverse-append (c ∷ s) (b'"' ∷ []))
        ∙ reverse-strip quote_width (length (s ++ b'"' ∷ [])) c s
            (λ r. quoted_width (last_byte c s) r (last_byte-clean c s h hs)))

-- It shows at both ends.
pub visible-clean : (c : ℕ) → is_clean c ≡ true → (c == b' ') ≡ false → is_visible c ≡ true
visible-clean c h n = ground arith

trim_in_quotes : (s : Str) → trim_space (in_quotes s) ≡ in_quotes s
trim_in_quotes s =
    trim_space_kept b'"' (s ++ b'"' ∷ []) refl (ap is_visible (last_byte-quote b'"' s))

trim_blank_quotes : (s : Str) → trim_space (b' ' ∷ in_quotes s) ≡ in_quotes s
trim_blank_quotes s =
    trim_space_blank b'"' (s ++ b'"' ∷ []) refl (ap is_visible (last_byte-quote b'"' s))

not_null : (s : Str) → equal (in_quotes s) (codes "null") ≡ false
not_null s = elim (Bool-cases (equal (in_quotes s) (codes "null"))) [
  | inl y ↦ absurd (clash ((equal_iff (in_quotes s) (codes "null")).0 y))
  | inr n ↦ n
]
  where
    clash : in_quotes s ≡ codes "null" → ⊥
    clash y = omega (arith, ap (λ (x : Str). first_of x) y)
      where
        first_of : Str → ℕ
        first_of [] = 0
        first_of (c ∷ x) = c

-- A text that keeps its form when it is written, between blanks or not.
abbrev pub Reads : Str → Str → Type 0
Reads v s = (strip_inline_comment v ≡ v) × (strip_inline_comment (b' ' ∷ v) ≡ v) × (unquote v ≡ s)

unquote-trimmed :
    (v s : Str)
    → trim_space v ≡ v
    → equal v (codes "null") ≡ false
    → trim_quotes v ≡ s
    → unquote v ≡ s
unfolding unquote
unquote-trimmed v s e n q = rw (e, n) q

in_quotes-Reads : (s : Str) → IsClean s → Reads (in_quotes s) s
unfolding strip_inline_comment unquote
in_quotes-Reads s h = (
  ap strip_trimmed (trim_in_quotes s) ∙ ap (λ (x : Str). b'"' ∷ x) (quoted-clean s h),
  ap strip_trimmed (trim_blank_quotes s) ∙ ap (λ (x : Str). b'"' ∷ x) (quoted-clean s h),
  unquote-trimmed (in_quotes s) s (trim_in_quotes s) (not_null s) (trim_quotes-in_quotes s h),
)

-- The conditions under which a text is written as it stands.
pub not_special : (p : ℕ → Bool) (s : Str) → any_byte p s ≡ false → All (λ c. p c ≡ false) s
not_special p [] h = tt
not_special p (c ∷ s) h = (ground arith, not_special p s (ground arith))

no_hash : (c : ℕ) → is_special c ≡ false → ((c == b'#') ≡ false) × ((c == b'"') ≡ false)
no_hash c h = (ground arith, ground arith)

before_comment-plain :
    (b : Bool) (s : Str) → All (λ c. is_special c ≡ false) s → before_comment b s ≡ s
unfolding before_comment
before_comment-plain b [] h = refl
before_comment-plain b (c ∷ s) (h, hs) =
    rw ((no_hash c h).0) (ap (λ (x : Str). c ∷ x) (before_comment-plain (is_blank c) s hs))

strip_trimmed-plain :
    (c : ℕ) (s : Str) → All (λ c. is_special c ≡ false) (c ∷ s) → strip_trimmed (c ∷ s) ≡ c ∷ s
strip_trimmed-plain c s (h, hs) =
    let e : (length (c ∷ s) == length (c ∷ s)) ≡ true =
      (==_iff (length (c ∷ s)) (length (c ∷ s))).1 refl in
    rw ((no_hash c h).1, before_comment-plain true (c ∷ s) (h, hs), e) refl

trim_quotes-plain : (c : ℕ) (s : Str) → is_clean c ≡ true → IsClean s → trim_quotes (c ∷ s) ≡ c ∷ s
unfolding trim_quotes
trim_quotes-plain c s h hs =
    rw (strip_stops quote_width (length (c ∷ s)) (c ∷ s) (quoted_width c s h)) (
      reverse-strip quote_width (length (c ∷ s)) c s
        (λ r. quoted_width (last_byte c s) r (last_byte-clean c s h hs)))

pub plain-Reads :
    (c : ℕ) (s : Str)
    → IsClean (c ∷ s)
    → wants_escapes (c ∷ s) ≡ false
    → equal (c ∷ s) (codes "null") ≡ false
    → Reads (c ∷ s) (c ∷ s)
unfolding strip_inline_comment
plain-Reads c s (h, hs) w n =
    let first : is_visible c ≡ true = visible-clean c h (ground arith) in
    let last : is_visible (last_byte c s) ≡ true =
      visible-clean (last_byte c s) (last_byte-clean c s h hs)
        (sym (ends_blank-last c s) ∙ ground arith) in
    let plain : All (λ c. is_special c ≡ false) (c ∷ s) =
      not_special is_special (c ∷ s) (ground arith) in
    (
      ap strip_trimmed (trim_space_kept c s first last) ∙ strip_trimmed-plain c s plain,
      ap strip_trimmed (trim_space_blank c s first last) ∙ strip_trimmed-plain c s plain,
      unquote-trimmed (c ∷ s) (c ∷ s) (trim_space_kept c s first last) n
          (trim_quotes-plain c s h hs),
    )

not_reserved_null :
    (s : Str) → contains reserved_words (map lower_byte s) ≡ false → equal s (codes "null") ≡ false
not_reserved_null s h = elim (Bool-cases (equal s (codes "null"))) [
  | inl y ↦ absurd (
      clash (
        sym (
          ap (λ (x : Str). contains reserved_words (map lower_byte x))
            ((equal_iff s (codes "null")).0 y))
        ∙ h))
  | inr n ↦ n
]
  where
    clash : contains reserved_words (map lower_byte (codes "null")) ≡ false → ⊥
    clash y = ground arith

pub escaped-clean : (s : Str) → IsClean s → in_quotes (escape b'"' (escape b'\\' s)) ≡ in_quotes s
escaped-clean s h =
    ap in_quotes (rw (escape-clean b'\\' s (slashes s h)) (escape-clean b'"' s (quotes s h)))
  where
    slashes : (s : Str) → IsClean s → All (λ c. (c == b'\\') ≡ false) s
    slashes [] k = tt
    slashes (c ∷ t) (k, ks) = ((clean_ne c k).1, slashes t ks)

    quotes : (s : Str) → IsClean s → All (λ c. (c == b'"') ≡ false) s
    quotes [] k = tt
    quotes (c ∷ t) (k, ks) = ((clean_ne c k).0, quotes t ks)

-- A printable ASCII text without double quotes and backslashes that `yamlQuoteString` writes is read back as it
-- was: `stripInlineComment` leaves the value whole, behind a blank or not, and `unquote` gives the text.
pub yaml_quote_string-Reads : (s : Str) → IsClean s → Reads (yaml_quote_string s) s
unfolding yaml_quote_string
yaml_quote_string-Reads [] h = in_quotes-Reads [] h
yaml_quote_string-Reads (c ∷ s) h = elim (Bool-cases (wants_escapes (c ∷ s))) [
  | inl y ↦ rw (y, escaped-clean (c ∷ s) h) (in_quotes-Reads (c ∷ s) h)
  | inr n ↦ elim (Bool-cases (contains reserved_words (map lower_byte (c ∷ s)))) [
    | inl y ↦ rw (n, y) (in_quotes-Reads (c ∷ s) h)
    | inr m ↦ elim (Bool-cases (looks_numeric (c ∷ s))) [
      | inl y ↦ rw (n, m, y) (in_quotes-Reads (c ∷ s) h)
      | inr k ↦ rw (n, m, k) (plain-Reads c s h n (not_reserved_null (c ∷ s) m))
    ]
  ]
]
