-- ===== src/Config/Blanks.antt =====
-- app/config.go: lines with blanks in front, trimmed.
use jacred_go.Base.{ℕ, zero, suc, true, [], ◌∷◌, Str, ◌≡◌, refl, ap, ◌∙◌, arith, length}
use jacred_go.Base.Trim.{strip, space_width, space_width_back, trim_space, trim_left, trim_right}
use jacred_go.Base.Trimmed.{
  is_visible, last_byte, strip_stops, reverse-strip, space_width-visible, space_width_back-visible,
}
use jacred_go.Config.LineText.{mark_width, trim_marks_right, leading_blanks}
use jacred_go.Config.Writer.{indented}

pub mark_width-visible : (c : ℕ) (s : Str) → is_visible c ≡ true → mark_width (c ∷ s) ≡ 0
mark_width-visible c [] h = ground arith
mark_width-visible c (a ∷ []) h = ground arith
mark_width-visible c (a ∷ b ∷ s) h = ground arith

pub trim_marks_kept :
    (c : ℕ) (s : Str) → is_visible (last_byte c s) ≡ true → trim_marks_right (c ∷ s) ≡ c ∷ s
trim_marks_kept c s h =
    reverse-strip mark_width (length (c ∷ s)) c s (λ r. mark_width-visible (last_byte c s) r h)

-- A line with blanks in front.
pub strip_blank : (n : ℕ) (s : Str) → strip space_width (suc n) (b' ' ∷ s) ≡ strip space_width n s
unfolding strip
strip_blank n s = rw (one s, strip) refl
  where
    one : (s : Str) → space_width (b' ' ∷ s) ≡ 1
    one [] = refl
    one (a ∷ []) = refl
    one (a ∷ b ∷ s) = refl

pub trim_left-indented :
    (n c : ℕ) (s : Str) → is_visible c ≡ true → trim_left (indented n (c ∷ s)) ≡ c ∷ s
unfolding trim_left
trim_left-indented zero c s h =
    strip_stops space_width (length (c ∷ s)) (c ∷ s) (space_width-visible c s h)
trim_left-indented (suc n) c s h =
    strip_blank (length (indented n (c ∷ s))) (indented n (c ∷ s)) ∙ trim_left-indented n c s h

pub trim_space-indented :
    (n c : ℕ) (s : Str)
    → is_visible c ≡ true
    → is_visible (last_byte c s) ≡ true
    → trim_space (indented n (c ∷ s)) ≡ c ∷ s
unfolding trim_space trim_right
trim_space-indented n c s h k =
    ap trim_right (trim_left-indented n c s h)
    ∙ reverse-strip space_width_back (length (c ∷ s)) c s
        (λ r. space_width_back-visible (last_byte c s) r k)

pub leading_blanks-indented :
    (n c : ℕ) (s : Str) → is_visible c ≡ true → leading_blanks (indented n (c ∷ s)) ≡ n
leading_blanks-indented zero c s h = ground arith
leading_blanks-indented (suc n) c s h = ap suc (leading_blanks-indented n c s h)

pub trim_marks-indented :
    (n c : ℕ) (s : Str)
    → is_visible (last_byte c s) ≡ true
    → trim_marks_right (indented n (c ∷ s)) ≡ indented n (c ∷ s)
trim_marks-indented zero c s h = trim_marks_kept c s h
trim_marks-indented (suc n) c s h = trim_marks_kept b' ' (indented n (c ∷ s)) (rw (last n) h)
  where
    last : (n : ℕ) → last_byte b' ' (indented n (c ∷ s)) ≡ last_byte c s
    last zero = refl
    last (suc n) = last n
