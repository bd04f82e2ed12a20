-- ===== src/Bencode/ByteStrings.antt =====
-- `parseBytes` reads back what `encode_bytes` writes.
use mathlib.Core.List.{append_assoc}
use jacred_go.Base.{
  ℕ, ◌+◌, ◌<◌, ◌≡◌, ◌∷◌, ◌++◌, Str, some, arith, length, length-append, take-append, drop-append,
  ap, ◌∙◌,
}
use jacred_go.Bencode.Cursor.{int_limit, scan_length, done, Cursor, slice, parse_bytes, atoi_digits}
use jacred_go.Bencode.Decimal.{
  to_decimal, to_decimal-Digits, atoi_digits-to_decimal, scan_length-Digits,
}
use jacred_go.Bencode.Encode.{encode_bytes}

-- The cursor `n` bytes on.
abbrev pub at : ℕ → Str → Cursor
at i s = record { i = i; rest = s }

slice-append :
    (i : ℕ) (v rest : Str)
    → i + length v < int_limit
    → slice (length v) (at i (v ++ rest)) ≡ done (v, at (i + length v) rest)
unfolding slice
slice-append i v rest h =
    ground (arith, length-append v rest, take-append v rest, drop-append v rest)

-- `parseBytes` by its two parts.
pub parse_bytes_at :
    (i : ℕ) (s ds more : Str) {n : ℕ}
    → scan_length s ≡ done (ds, more)
    → atoi_digits ds ≡ some n
    → parse_bytes (at i s) ≡ slice n (at (i + length ds + 1) more)
unfolding parse_bytes
parse_bytes_at i s ds more e k = rw e (rw k)

pub length-encode_bytes :
    (v : Str) → length (encode_bytes v) ≡ length (to_decimal (length v)) + 1 + length v
unfolding encode_bytes
length-encode_bytes v = omega (arith, length-append (to_decimal (length v)) (b':' ∷ v))

-- On a written byte string that ends before position 2^63, with anything behind it, `parseBytes` returns
-- the string and the cursor at its end.
pub parse_bytes-encode_bytes :
    (i : ℕ) (v rest : Str)
    → i + length (encode_bytes v) < int_limit
    → parse_bytes (at i (encode_bytes v ++ rest)) ≡ done (v, at (i + length (encode_bytes v)) rest)
unfolding encode_bytes
parse_bytes-encode_bytes i v rest h =
    let n = length v in
    let ds = to_decimal n in
    rw (append_assoc ds (b':' ∷ v) rest) (
      parse_bytes_at i (ds ++ (b':' ∷ (v ++ rest))) ds (v ++ rest)
        (scan_length-Digits ds (v ++ rest) (to_decimal-Digits n))
        (atoi_digits-to_decimal n (omega (arith, length-append ds (b':' ∷ v))))
      ∙ slice-append (i + length ds + 1) v rest (omega (arith, length-append ds (b':' ∷ v)))
      ∙ ap (λ k. done (v, at k rest)) (omega (arith, length-append ds (b':' ∷ v))))
