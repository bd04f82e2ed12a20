-- ===== src/Bencode/Cursor.antt =====
-- core/torrent_bencode.go: the parser's state, and `parseBytes`.
-- The buffer is kept as the count of bytes read, `i`, and the bytes from there on, `rest`; so
-- `len(p.b)` is `i + length rest` and `p.b[i:]` is `rest`.
use jacred_go.Base.{
  ℕ, ◌+◌, ◌-◌, ◌*◌, ◌^◌, ◌%◌, Bool, true, false, ◌&&◌, [], ◌∷◌, Option, none, some, Str, ltb, leb,
  ◌==◌, if◌then◌else◌, length, take, drop,
}
use jacred_go.Base.Atoi.{ℤ, pos, negsuc}

-- The messages of the parser's errors.
pub data BencodeError : Type 0 where
  root_not_dict unterminated_root unterminated_nested unterminated_announce : BencodeError
  unexpected_eof unterminated_int unterminated_list unterminated_dict : BencodeError
  invalid_token invalid_length missing_colon bad_length length_overflow no_info : BencodeError

-- `panic` is a run-time panic of Go; `out_of_fuel` is the model's alone.
pub data Outcome {ℓ} (A : Type ℓ) : Type ℓ where
  done : A → Outcome A
  fail : BencodeError → Outcome A
  panic out_of_fuel : Outcome A

infixl 5 ◌>>=◌
abbrev pub ◌>>=◌ {ℓ κ} : {A : Type ℓ} {B : Type κ} → Outcome A → (A → Outcome B) → Outcome B
done a >>= f = f a
fail e >>= f = fail e
panic >>= f = panic
out_of_fuel >>= f = out_of_fuel

pub record Cursor : Type 0 where
  pub i : ℕ
  pub rest : Str

-- One past the largest `int`.
abbrev pub int_limit : ℕ
int_limit = 2 ^ 63

abbrev pub buffer_length : Cursor → ℕ
buffer_length c = c.i + length c.rest

-- `peek`: 0 at the end.
abbrev pub peek : Str → ℕ
peek [] = 0
peek (b ∷ bs) = b

-- The loop guard `p.i < len(p.b) && p.peek() != 'e'`, negated.
abbrev pub at_close : Str → Bool
at_close [] = true
at_close (b ∷ bs) = b == b'e'

-- `p.i++`
abbrev pub advance : Cursor → Cursor
advance c = record { i = c.i + 1; rest = drop 1 c.rest }

abbrev pub is_digit : ℕ → Bool
is_digit c = leb b'0' c && leb c b'9'

-- The digits up to the colon, and what stands behind the colon.
unfoldable pub scan_length : Str → Outcome (Str × Str)
scan_length [] = fail missing_colon
scan_length (c ∷ cs) =
    let more = scan_length cs >>= λ r. done (c ∷ r.0, r.1) in
    if c == b':' then done ([], cs) else if is_digit c then more else fail invalid_length

-- The value of decimal digits, most significant first.
abbrev pub decimal_from : ℕ → Str → ℕ
decimal_from acc [] = acc
decimal_from acc (c ∷ cs) = decimal_from (acc * 10 + (c - b'0')) cs

-- `strconv.Atoi` on a run of digits: an error on none, and on a value that is no `int`.
unfoldable pub atoi_digits : Str → Option ℕ
atoi_digits [] = none
atoi_digits (c ∷ cs) = let n = decimal_from 0 (c ∷ cs) in if ltb n int_limit then some n else none

-- `a + b` of two `int`s that are not negative: the bits of the sum, as a signed number.
abbrev pub int_sum : ℕ → ℕ → ℤ
int_sum a b = let s = (a + b) % 2 ^ 64 in if ltb s int_limit then pos s else negsuc (2 ^ 64 - s - 1)

-- `e > n`
abbrev pub is_past : ℤ → ℕ → Bool
is_past (pos e) n = ltb n e
is_past (negsuc e) n = false

-- `p.b[p.i : e]`, then the cursor at `e`: a panic where the bounds are out of order.
abbrev pub slice_to : ℤ → Cursor → Outcome (Str × Cursor)
slice_to (pos e) c =
    if leb c.i e
    then done (take (e - c.i) c.rest, record { i = e; rest = drop (e - c.i) c.rest })
    else panic
slice_to (negsuc e) c = panic

-- `p.i+n > len(p.b)`, then the slice up to there.
unfoldable pub slice : ℕ → Cursor → Outcome (Str × Cursor)
slice n c =
    if is_past (int_sum c.i n) (buffer_length c)
    then fail length_overflow
    else slice_to (int_sum c.i n) c

unfoldable pub slice_for : Option ℕ → Cursor → Outcome (Str × Cursor)
slice_for none c = fail bad_length
slice_for (some n) c = slice n c

-- `parseBytes`: a byte string `<length>:<bytes>`.
unfoldable pub parse_bytes : Cursor → Outcome (Str × Cursor)
unfolding slice_for scan_length slice atoi_digits
parse_bytes c = scan_length c.rest >>= λ r.
    slice_for (atoi_digits r.0) (record { i = c.i + length r.0 + 1; rest = r.1 })
