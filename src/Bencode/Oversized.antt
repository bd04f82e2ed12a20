-- ===== src/Bencode/Oversized.antt =====
-- core/torrent_bencode.go: a declared length whose end is no `int`, in `parseBytes`.
use jacred_go.Base.{
  ℕ, ◌+◌, ◌-◌, ◌%◌, ◌^◌, ◌<◌, ◌≤◌, ◌≡◌, refl, ◌∷◌, ◌++◌, Str, ◌∙◌, ◌≢◌, [], inl, inr, true, false,
  ltb, leb, lt→ltb, leb→le, Bool-cases, take, drop, length, arith, if◌then◌else◌,
}
use jacred_go.Base.Atoi.{pos, negsuc}
use jacred_go.Bencode.Cursor.{
  int_limit, int_sum, Outcome, Cursor, done, fail, length_overflow, panic, slice, parse_bytes,
  decimal_from,
}
use jacred_go.Bencode.Decimal.{Digits, scan_length-Digits, atoi_digits_of}
use jacred_go.Bencode.ByteStrings.{at, parse_bytes_at}

-- A sum of two `int`s that reaches the limit is a negative number.
int_sum-wraps :
    (a b : ℕ)
    → a < int_limit
    → b < int_limit
    → int_limit ≤ a + b
    → int_sum a b ≡ negsuc (2 ^ 64 - (a + b) - 1)
int_sum-wraps a b ha hb h =
    let small : (a + b) % 2 ^ 64 ≡ a + b = omega arith in
    let past : ltb (a + b) int_limit ≡ false = ground arith in rw (small, past) refl

int_sum-fits : (a b : ℕ) → a + b < int_limit → int_sum a b ≡ pos (a + b)
int_sum-fits a b h =
    let small : (a + b) % 2 ^ 64 ≡ a + b = omega arith in
    let fits : ltb (a + b) int_limit ≡ true = lt→ltb (a + b) int_limit h in rw (small, fits) refl

-- The bytes of a declared length, by its end as it is.
abbrev pub byte_string : ℕ → ℕ → Str → Outcome (Str × Cursor)
byte_string start n rest =
    if leb int_limit (start + n)
    then panic
    else if ltb (length rest) n
    then fail length_overflow
    else done (take n rest, at (start + n) (drop n rest))

slice-byte_string :
    (start n : ℕ) (rest : Str)
    → start + length rest < int_limit
    → n < int_limit
    → slice n (at start rest) ≡ byte_string start n rest
unfolding slice
slice-byte_string start n rest hb hn = elim (Bool-cases (leb int_limit (start + n))) [
  | inl wraps ↦
      rw (int_sum-wraps start n (omega arith) hn (leb→le int_limit (start + n) wraps), wraps) refl
  | inr fits ↦
      let e : int_sum start n ≡ pos (start + n) = int_sum-fits start n (ground arith) in
      let back : start + n - start ≡ n = omega arith in
      let up : leb start (start + n) ≡ true = ground arith in
      let past : ltb (start + length rest) (start + n) ≡ ltb (length rest) n = ground arith in
      rw (e, fits, up, back, past) refl
]

-- On a buffer whose length is an `int`, at every declared length that is an `int`, leading zeros included,
-- `parseBytes` panics exactly if the end of the string is no `int`, gives an error exactly if it is one and
-- past the buffer, and otherwise returns the string and the cursor at its end.
pub parse_bytes_bounds :
    (i : ℕ) (ds rest : Str)
    → Digits ds
    → ds ≢ []
    → decimal_from 0 ds < int_limit
    → i + length ds + 1 + length rest < int_limit
    → parse_bytes (at i (ds ++ (b':' ∷ rest)))
      ≡ byte_string (i + length ds + 1) (decimal_from 0 ds) rest
parse_bytes_bounds i ds rest d ne h hb =
    parse_bytes_at i _ ds rest (scan_length-Digits ds rest d) (atoi_digits_of ds ne refl h)
    ∙ slice-byte_string (i + length ds + 1) (decimal_from 0 ds) rest hb h
