-- ===== src/Base/Trimmed.antt =====
-- Texts that trimming leaves as they are.
use mathlib.Core.List.{reverse, reverse-cons, reverse-reverse}
use Prim.Native.Nat.{ℕ, zero, suc}
use mathlib.Core.Path.{◌≡◌, refl, ap, ◌∙◌}
use mathlib.Core.Bool.{Bool, true, ◌&&◌}
use mathlib.Core.List.{[], ◌∷◌, ◌++◌}
use native.Mathlib.Omega.{arith}
use jacred_go.Base.Strings.{Str}
use jacred_go.Base.Lists.{length}
use jacred_go.Base.Tests.{leb}
use jacred_go.Base.Trim.{space_width, space_width_back, strip, trim_left, trim_right, trim_space}

-- An ASCII character that shows.
abbrev pub is_visible : ℕ → Bool
is_visible c = leb 33 c && leb c 126

abbrev pub last_byte : ℕ → Str → ℕ
last_byte c [] = c
last_byte c (d ∷ s) = last_byte d s

pub reverse-last : (c : ℕ) (s : Str) → (r : Str) × (reverse (c ∷ s) ≡ last_byte c s ∷ r)
reverse-last c [] = ([], refl)
reverse-last c (d ∷ s) =
    let (r, e) = reverse-last d s in
    (r ++ c ∷ [], reverse-cons c (d ∷ s) ∙ ap (λ (x : Str). x ++ c ∷ []) e)

pub strip_stops : (width : Str → ℕ) (n : ℕ) (s : Str) → width s ≡ 0 → strip width n s ≡ s
unfolding strip
strip_stops width zero s e = refl
strip_stops width (suc n) s e = rw (e, strip) refl

-- Nothing to strip at either end.
pub reverse-strip :
    (width : Str → ℕ) (n c : ℕ) (s : Str)
    → ((r : Str) → width (last_byte c s ∷ r) ≡ 0)
    → reverse (strip width n (reverse (c ∷ s))) ≡ c ∷ s
reverse-strip width n c s e =
    let (r, q) = reverse-last c s in
    ap reverse (strip_stops width n (reverse (c ∷ s)) (ap width q ∙ e r)) ∙ reverse-reverse (c ∷ s)

pub space_width-visible : (c : ℕ) (s : Str) → is_visible c ≡ true → space_width (c ∷ s) ≡ 0
space_width-visible c [] h = ground arith
space_width-visible c (a ∷ []) h = ground arith
space_width-visible c (a ∷ b ∷ s) h = ground arith

pub space_width_back-visible :
    (c : ℕ) (s : Str) → is_visible c ≡ true → space_width_back (c ∷ s) ≡ 0
space_width_back-visible c [] h = ground arith
space_width_back-visible c (a ∷ []) h = ground arith
space_width_back-visible c (a ∷ b ∷ s) h = ground arith

pub trim_space_kept :
    (c : ℕ) (s : Str)
    → is_visible c ≡ true
    → is_visible (last_byte c s) ≡ true
    → trim_space (c ∷ s) ≡ c ∷ s
unfolding trim_space trim_left trim_right
trim_space_kept c s h k =
    ap trim_right (strip_stops space_width (length (c ∷ s)) (c ∷ s) (space_width-visible c s h))
    ∙ reverse-strip space_width_back (suc (length s)) c s
        (λ r. space_width_back-visible (last_byte c s) r k)

pub trim_space_blank :
    (c : ℕ) (s : Str)
    → is_visible c ≡ true
    → is_visible (last_byte c s) ≡ true
    → trim_space (b' ' ∷ c ∷ s) ≡ c ∷ s
unfolding trim_space trim_left trim_right strip
trim_space_blank c s h k =
    ap trim_right
      (first s ∙ strip_stops space_width (suc (length s)) (c ∷ s) (space_width-visible c s h))
    ∙ reverse-strip space_width_back (suc (length s)) c s
        (λ r. space_width_back-visible (last_byte c s) r k)
  where
    first : (s : Str) → trim_left (b' ' ∷ c ∷ s) ≡ strip space_width (suc (length s)) (c ∷ s)
    first [] = refl
    first (d ∷ s) = refl
