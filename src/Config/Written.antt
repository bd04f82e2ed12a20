-- ===== src/Config/Written.antt =====
-- app/: what is written as a value, as a value of a line.
use jacred_go.Base.{
  ℕ, Bool, true, false, [], ◌∷◌, ◌++◌, Str, contains, ◌==◌, ◌≡◌, ◌≢◌, refl, ap, sym, ◌∙◌, inl, inr,
  arith, Bool-cases, All, map,
}
use jacred_go.Base.Atoi.{ℤ}
use jacred_go.Base.Trim.{lower_byte}
use jacred_go.Base.Trimmed.{is_visible, last_byte}
use jacred_go.Config.Values.{strip_inline_comment, parse_bool_at}
use jacred_go.Config.Scalars.{
  is_special, in_quotes, wants_escapes, reserved_words, looks_numeric, escape, yaml_quote_string,
  yaml_int, yaml_bool,
}
use jacred_go.Config.Quoted.{
  IsClean, not_special, last_byte-quote, last_byte-clean, visible-clean, ends_blank-last,
}
use jacred_go.Config.Numbers.{
  is_numeral, numerals, numerals-IsClean, numerals-any, numerals-ends, numeral_lem, yaml_int-ne-nil,
}
use jacred_go.Config.Lines.{IsValue}

-- Written values are values.
in_quotes-IsValue : (s : Str) → IsValue (in_quotes s)
in_quotes-IsValue s =
    let e : last_byte b'"' (s ++ b'"' ∷ []) ≡ b'"' = last_byte-quote b'"' s in
    (ap is_visible e, ap (λ (x : ℕ). x == b':') e, inl refl)

ordinary : (c : ℕ) → is_special c ≡ false → ((c == b'#') ≡ false) × ((c == b':') ≡ false)
ordinary c h = (ground arith, ground arith)

ordinary_last :
    (c : ℕ) (s : Str) → All (λ c. is_special c ≡ false) (c ∷ s) → is_special (last_byte c s) ≡ false
ordinary_last c [] (h, hs) = h
ordinary_last c (d ∷ s) (h, hs) = ordinary_last d s hs

no_hashes : (s : Str) → All (λ c. is_special c ≡ false) s → All (λ c. (c == b'#') ≡ false) s
no_hashes [] h = tt
no_hashes (c ∷ s) (h, hs) = ((ordinary c h).0, no_hashes s hs)

plain-IsValue :
    (c : ℕ) (s : Str) → IsClean (c ∷ s) → wants_escapes (c ∷ s) ≡ false → IsValue (c ∷ s)
plain-IsValue c s (h, hs) w =
    let plain : All (λ c. is_special c ≡ false) (c ∷ s) =
      not_special is_special (c ∷ s) (ground arith) in
    (
      visible-clean (last_byte c s) (last_byte-clean c s h hs)
          (sym (ends_blank-last c s) ∙ ground arith),
      (ordinary (last_byte c s) (ordinary_last c s plain)).1,
      inr (no_hashes (c ∷ s) plain),
    )

pub yaml_quote_string-IsValue : (s : Str) → IsClean s → IsValue (yaml_quote_string s)
unfolding yaml_quote_string
yaml_quote_string-IsValue [] h = in_quotes-IsValue []
yaml_quote_string-IsValue (c ∷ s) h = elim (Bool-cases (wants_escapes (c ∷ s))) [
  | inl y ↦ rw y (in_quotes-IsValue (escape b'"' (escape b'\\' (c ∷ s))))
  | inr n ↦ elim (Bool-cases (contains reserved_words (map lower_byte (c ∷ s)))) [
    | inl y ↦ rw (n, y) (in_quotes-IsValue (c ∷ s))
    | inr m ↦ elim (Bool-cases (looks_numeric (c ∷ s))) [
      | inl y ↦ rw (n, m, y) (in_quotes-IsValue (c ∷ s))
      | inr k ↦ rw (n, m, k) (plain-IsValue c s h n)
    ]
  ]
]

numerals-IsValue : (s : Str) → s ≢ [] → All (λ c. is_numeral c ≡ true) s → IsValue s
numerals-IsValue [] e h = absurd (e refl)
numerals-IsValue (c ∷ s) e h =
    plain-IsValue c s (numerals-IsClean (c ∷ s) h)
      (rw (numerals-any (c ∷ s) h, (numeral_lem c h.0).2, numerals-ends (c ∷ s) h) refl)

pub yaml_int-IsValue : (z : ℤ) → IsValue (yaml_int z)
yaml_int-IsValue z = numerals-IsValue (yaml_int z) (yaml_int-ne-nil z) (numerals z)

pub yaml_bool-IsValue : (b : Bool) → IsValue (yaml_bool b)
yaml_bool-IsValue true = (refl, refl, inr (refl, (refl, (refl, (refl, tt)))))
yaml_bool-IsValue false = (refl, refl, inr (refl, (refl, (refl, (refl, (refl, tt))))))

pub parse_bool_at-yaml_bool :
    (b : Bool) → parse_bool_at (strip_inline_comment (b' ' ∷ yaml_bool b)) ≡ b
unfolding parse_bool_at strip_inline_comment
parse_bool_at-yaml_bool true = refl
parse_bool_at-yaml_bool false = refl
