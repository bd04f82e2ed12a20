-- ===== src/Bencode/Decimal.antt =====
-- Decimal digits, written and read back.
use mathlib.Core.List.{concat-ne-nil}
use jacred_go.Base.{
  ℕ, zero, suc, ◌+◌, ◌-◌, ◌*◌, ◌/◌, ◌%◌, ◌<◌, ◌≡◌, ◌≢◌, refl, true, [], ◌∷◌, ◌++◌, Str, some, arith,
  ltb, if◌then◌else◌, All, All-append, Bool-cases, inl, inr, lt→ltb,
}
use jacred_go.Bencode.Cursor.{is_digit, decimal_from, atoi_digits, int_limit, scan_length, done}

-- Decimal digits, most significant first.
to_decimal_fuel : ℕ → ℕ → Str
to_decimal_fuel zero n = []
to_decimal_fuel (suc f) n =
    let more = to_decimal_fuel f (n / 10) in
    if ltb n 10 then (b'0' + n) ∷ [] else more ++ (b'0' + n % 10) ∷ []

unfoldable pub to_decimal : ℕ → Str
unfolding to_decimal_fuel
to_decimal n = to_decimal_fuel (suc n) n

abbrev pub Digits : Str → Type 0
Digits = All (λ c. is_digit c ≡ true)

pub decimal_from-append :
    (acc : ℕ) (xs ys : Str) → decimal_from acc (xs ++ ys) ≡ decimal_from (decimal_from acc xs) ys
decimal_from-append acc [] ys = refl
decimal_from-append acc (x ∷ xs) ys = decimal_from-append (acc * 10 + (x - b'0')) xs ys

decimal_from-to_decimal_fuel : (f n : ℕ) → n < f → decimal_from 0 (to_decimal_fuel f n) ≡ n
unfolding to_decimal_fuel
decimal_from-to_decimal_fuel zero n h = elim h [ ]
decimal_from-to_decimal_fuel (suc f) n h = ground (
  arith,
  decimal_from-append 0 (to_decimal_fuel f (n / 10)) ((b'0' + n % 10) ∷ []),
  decimal_from-to_decimal_fuel f (n / 10),
)

pub decimal_from-to_decimal : (n : ℕ) → decimal_from 0 (to_decimal n) ≡ n
unfolding to_decimal
decimal_from-to_decimal n = decimal_from-to_decimal_fuel (suc n) n (omega arith)

to_decimal_fuel-Digits : (f n : ℕ) → Digits (to_decimal_fuel f n)
unfolding to_decimal_fuel
to_decimal_fuel-Digits zero n = tt
to_decimal_fuel-Digits (suc f) n = elim (Bool-cases (ltb n 10)) [
  | inl small ↦ rw small (ground arith)
  | inr big ↦ rw big (
      All-append _ (to_decimal_fuel f (n / 10)) _ (to_decimal_fuel-Digits f (n / 10))
        (ground arith))
]

pub to_decimal-Digits : (n : ℕ) → Digits (to_decimal n)
unfolding to_decimal
to_decimal-Digits n = to_decimal_fuel-Digits (suc n) n

pub to_decimal-ne-nil : (n : ℕ) → to_decimal n ≢ []
unfolding to_decimal
to_decimal-ne-nil n = ground (arith, concat-ne-nil (b'0' + n % 10) (to_decimal_fuel n (n / 10)))

pub atoi_digits_of :
    (ds : Str) {n : ℕ} → ds ≢ [] → decimal_from 0 ds ≡ n → n < int_limit → atoi_digits ds ≡ some n
unfolding atoi_digits
atoi_digits_of [] ne e h = absurd (ne refl)
atoi_digits_of (d ∷ ds) {n} ne e h = rw (e, lt→ltb n int_limit h)

pub atoi_digits-to_decimal : (n : ℕ) → n < int_limit → atoi_digits (to_decimal n) ≡ some n
atoi_digits-to_decimal n h =
    atoi_digits_of (to_decimal n) (to_decimal-ne-nil n) (decimal_from-to_decimal n) h

pub scan_length-Digits :
    (ds rest : Str) → Digits ds → scan_length (ds ++ (b':' ∷ rest)) ≡ done (ds, rest)
unfolding scan_length
scan_length-Digits [] rest h = refl
scan_length-Digits (d ∷ ds) rest h = ground (arith, scan_length-Digits ds rest h.1)
