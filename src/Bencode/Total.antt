-- ===== src/Bencode/Total.antt =====
-- On any input the reader stops by itself: no loop of core/torrent_bencode.go uses up its fuel, and
-- each value read moves the cursor on inside the same buffer.
use jacred_go.Base.{
  ℕ, zero, suc, ◌+◌, ◌*◌, ◌<◌, ◌≤◌, ◌≡◌, ◌≢◌, inl, inr, refl, none, some, [], ◌∷◌, Str, Option,
  arith, ◌==◌, ◌-◌, if◌then◌else◌, length, drop, length-drop, Bool-cases,
}
use jacred_go.Base.Atoi.{ℤ, pos, negsuc}
use jacred_go.Bencode.Cursor.{
  BencodeError, Outcome, done, fail, panic, out_of_fuel, ◌>>=◌, Cursor, parse_bytes, scan_length,
  slice, is_past, slice_to, int_sum, length_overflow, slice_for, atoi_digits, at_close, is_digit,
  advance, buffer_length,
}
use jacred_go.Bencode.Skip.{
  Token, token, bytes, int, list, dict, eof, invalid, Place, value, items, entries, skip, skip_int,
  skip_value, close, skip_fuel,
}

-- `c'` is further on than `c`, in the same buffer.
pub record Ahead (c c' : Cursor) : Type 0 where
  pub fewer_left : length c'.rest < length c.rest
  pub same_buffer : buffer_length c' ≡ buffer_length c

-- A step from `c` ends within its fuel, and a result's cursor, read off by `at`, is ahead of `c`.
abbrev pub EndsAhead {ℓ} : {A : Type ℓ} → (A → Cursor) → Cursor → Outcome A → Type 0
EndsAhead at c (done a) = Ahead c (at a)
EndsAhead at c (fail e) = Unit
EndsAhead at c panic = Unit
EndsAhead at c out_of_fuel = ⊥

Ahead-trans : {c d e : Cursor} → Ahead c d → Ahead d e → Ahead c e
Ahead-trans p q = omega arith

pub EndsAhead-weaken {ℓ} :
    {A : Type ℓ} (at : A → Cursor) {c d : Cursor} (o : Outcome A)
    → Ahead c d
    → EndsAhead at d o
    → EndsAhead at c o
EndsAhead-weaken at (done a) h e = Ahead-trans h e
EndsAhead-weaken at (fail x) h e = tt
EndsAhead-weaken at panic h e = tt
EndsAhead-weaken at out_of_fuel h e = e

EndsAhead-value :
    (c : Cursor) (o : Outcome (Str × Cursor))
    → EndsAhead (λ r. r.1) c o
    → EndsAhead (λ d. d) c (o >>= λ r. done r.1)
EndsAhead-value c (done r) h = h
EndsAhead-value c (fail e) h = tt
EndsAhead-value c panic h = tt
EndsAhead-value c out_of_fuel h = h

-- Sequencing: the second step starts ahead of the first's start.
pub EndsAhead-bind {ℓ κ} :
    {A : Type ℓ} {B : Type κ} (at : A → Cursor) (at' : B → Cursor) (c : Cursor) (m : Outcome A)
    (k : A → Outcome B)
    → EndsAhead at c m
    → ((a : A) → Ahead c (at a) → EndsAhead at' (at a) (k a))
    → EndsAhead at' c (m >>= k)
EndsAhead-bind at at' c (done a) k h g = EndsAhead-weaken at' (k a) h (g a h)
EndsAhead-bind at at' c (fail e) k h g = tt
EndsAhead-bind at at' c panic k h g = tt
EndsAhead-bind at at' c out_of_fuel k h g = h

abbrev behind_colon : ℕ → Str × Str → Cursor
behind_colon i r = record { i = i + length r.0 + 1; rest = r.1 }

scan_length-EndsAhead :
    (i : ℕ) (s : Str) → EndsAhead (behind_colon i) (record { i = i; rest = s }) (scan_length s)
unfolding scan_length
scan_length-EndsAhead i [] = tt
scan_length-EndsAhead i (c ∷ s) = elim (Bool-cases (c == b':')) [
  | inl e ↦ rw e (omega arith)
  | inr ne ↦ rw ne (elim (Bool-cases (is_digit c)) [
    | inl d ↦ rw d (push (scan_length s) (scan_length-EndsAhead i s))
    | inr n ↦ rw n tt
  ])
]
  where
    push :
        (o : Outcome (Str × Str))
        → EndsAhead (behind_colon i) (record { i = i; rest = s }) o
        → EndsAhead
            (behind_colon i)
            (record { i = i; rest = c ∷ s })
            (o >>= λ r. done (c ∷ r.0, r.1))
    push (done r) h = omega arith
    push (fail e) h = tt
    push panic h = tt
    push out_of_fuel h = h

-- A slice that is taken moves the cursor within the buffer.
slice_to-stays :
    (e : ℕ) (c : Cursor) {r : Str × Cursor}
    → (if is_past (pos e) (buffer_length c) then fail length_overflow else slice_to (pos e) c)
      ≡ done r
    → (length r.1.rest ≤ length c.rest) × (buffer_length r.1 ≡ buffer_length c)
slice_to-stays e c h = ground (arith, length-drop (e - c.i) c.rest)

slice-stays :
    (n : ℕ) (c : Cursor) {r : Str × Cursor}
    → slice n c ≡ done r
    → (length r.1.rest ≤ length c.rest) × (buffer_length r.1 ≡ buffer_length c)
unfolding slice
slice-stays n c {r} h = go (int_sum c.i n) h
  where
    go :
        (z : ℤ)
        → (if is_past z (buffer_length c) then fail length_overflow else slice_to z c) ≡ done r
        → (length r.1.rest ≤ length c.rest) × (buffer_length r.1 ≡ buffer_length c)
    go (pos e) h = slice_to-stays e c h
    go (negsuc e) h = cc

slice-ne-out_of_fuel : (n : ℕ) (c : Cursor) → slice n c ≢ out_of_fuel
unfolding slice
slice-ne-out_of_fuel n c = ground arith

slice_for-EndsAhead :
    (o : Option ℕ) {c d : Cursor} → Ahead c d → EndsAhead (λ r. r.1) c (slice_for o d)
unfolding slice_for
slice_for-EndsAhead none h = tt
slice_for-EndsAhead (some n) {c} {d} h = go (slice n d) refl
  where
    go : (o : Outcome (Str × Cursor)) → slice n d ≡ o → EndsAhead (λ r. r.1) c o
    go (done r) e = omega (arith, slice-stays n d e)
    go (fail e) _ = tt
    go panic _ = tt
    go out_of_fuel e = slice-ne-out_of_fuel n d e

pub parse_bytes-EndsAhead : (c : Cursor) → EndsAhead (λ r. r.1) c (parse_bytes c)
unfolding parse_bytes
parse_bytes-EndsAhead c = bound (scan_length c.rest) (scan_length-EndsAhead c.i c.rest)
  where
    bound :
        (o : Outcome (Str × Str))
        → EndsAhead (behind_colon c.i) c o
        → EndsAhead (λ r. r.1) c (o >>= λ r. slice_for (atoi_digits r.0) (behind_colon c.i r))
    bound (done r) h = slice_for-EndsAhead (atoi_digits r.0) h
    bound (fail e) h = tt
    bound panic h = tt
    bound out_of_fuel h = h

skip_int-EndsAhead :
    (i : ℕ) (s : Str) → EndsAhead (λ c. c) (record { i = i; rest = s }) (skip_int i s)
unfolding skip_int
skip_int-EndsAhead i [] = tt
skip_int-EndsAhead i (b ∷ s) = elim (Bool-cases (b == b'e')) [
  | inl e ↦ rw e (omega arith)
  | inr ne ↦
      rw ne (
        EndsAhead-weaken (λ c. c) (skip_int (i + 1) s) (omega arith) (skip_int-EndsAhead (i + 1) s))
]

pub close-EndsAhead : (e : BencodeError) (c : Cursor) → EndsAhead (λ d. d) c (close e c)
close-EndsAhead e c = go c.i c.rest
  where
    go :
        (i : ℕ) (s : Str)
        → EndsAhead (λ d. d) (record { i = i; rest = s }) (close e (record { i = i; rest = s }))
    go i [] = tt
    go i (b ∷ s) = omega arith

pub advance-Ahead : (c : Cursor) → token c.rest ≢ Token.eof → Ahead c (advance c)
advance-Ahead c h = go c.i c.rest h
  where
    go :
        (i : ℕ) (s : Str)
        → token s ≢ Token.eof
        → Ahead (record { i = i; rest = s }) (record { i = i + 1; rest = drop 1 s })
    go i [] ne = absurd (ne refl)
    go i (b ∷ s) ne = omega arith

-- The fuel that a step needs where `n` bytes are left.
abbrev need : Place → ℕ → ℕ
need value n = 2 * n + 1
need items n = 2 * n + 2
need entries n = 2 * n + 2

skip-EndsAhead :
    (f : ℕ) (p : Place) (c : Cursor)
    → need p (length c.rest) ≤ f
    → EndsAhead (λ d. d) c (skip f p c)
unfolding skip
skip-EndsAhead zero value c h = absurd (omega arith)
skip-EndsAhead zero items c h = absurd (omega arith)
skip-EndsAhead zero entries c h = absurd (omega arith)
skip-EndsAhead (suc f) items c h = elim (Bool-cases (at_close c.rest)) [
  | inl e ↦ rw (e, skip) (close-EndsAhead _ c)
  | inr ne ↦
      rw (ne, skip)
        (EndsAhead-bind (λ d. d) (λ d. d) c (skip f value c) (skip f items)
          (skip-EndsAhead f value c (omega arith)) (λ d a. skip-EndsAhead f items d (omega arith)))
]
skip-EndsAhead (suc f) entries c h = elim (Bool-cases (at_close c.rest)) [
  | inl e ↦ rw (e, skip) (close-EndsAhead _ c)
  | inr ne ↦
      rw (ne, skip)
        (EndsAhead-bind (λ r. r.1) (λ d. d) c (parse_bytes c)
          (λ r. skip f value r.1 >>= λ d. skip f entries d) (parse_bytes-EndsAhead c)
          (λ r a.
            EndsAhead-bind (λ d. d) (λ d. d) r.1 (skip f value r.1) (skip f entries)
              (skip-EndsAhead f value r.1 (omega arith))
              (λ d b. skip-EndsAhead f entries d (omega arith))))
]
skip-EndsAhead (suc f) value c h =
    go (token c.rest) refl (λ d a. skip-EndsAhead f items d (omega arith))
      (λ d a. skip-EndsAhead f entries d (omega arith))
  where
    go :
        (t : Token)
        → token c.rest ≡ t
        → ((d : Cursor) → Ahead c d → EndsAhead (λ d. d) d (skip f items d))
        → ((d : Cursor) → Ahead c d → EndsAhead (λ d. d) d (skip f entries d))
        → EndsAhead (λ d. d) c (skip (suc f) value c)
    go bytes e _ _ = rw (e, skip) (EndsAhead-value c (parse_bytes c) (parse_bytes-EndsAhead c))
    go int e _ _ =
        let a = advance-Ahead c (rw e (cc)) in
        rw (e, skip)
          (EndsAhead-weaken (λ d. d) (skip_int (c.i + 1) (drop 1 c.rest)) a
            (skip_int-EndsAhead (c.i + 1) (drop 1 c.rest)))
    go list e ih _ =
        let a = advance-Ahead c (rw e (cc)) in
        rw (e, skip) (EndsAhead-weaken (λ d. d) (skip f items (advance c)) a (ih (advance c) a))
    go dict e _ ih =
        let a = advance-Ahead c (rw e (cc)) in
        rw (e, skip) (EndsAhead-weaken (λ d. d) (skip f entries (advance c)) a (ih (advance c) a))
    go eof e _ _ = rw (e, skip) tt
    go invalid e _ _ = rw (e, skip) tt

-- `skipValue` ends on every input: with an error, a panic, or a cursor that is ahead of where it began
-- and has fewer bytes left, by as many.
pub skip_value-EndsAhead : (c : Cursor) → EndsAhead (λ d. d) c (skip_value c)
unfolding skip_value
skip_value-EndsAhead c = skip-EndsAhead (skip_fuel c.rest) value c (omega arith)
