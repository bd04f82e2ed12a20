-- ===== src/Bencode/SkipEncoded.antt =====
-- `skipValue` steps over exactly one written value, whatever stands behind it.
use mathlib.Core.List.{append_assoc}
use jacred_go.Base.{
  ℕ, suc, ◌+◌, ◌-◌, ◌*◌, ◌<◌, ◌≤◌, ◌≡◌, ◌≢◌, refl, false, [], ◌∷◌, ◌++◌, Str, arith, ◌==◌, length,
  length-append, All, All-append, ap, ◌∙◌,
}
use jacred_go.Bencode.Cursor.{int_limit, Outcome, done, Cursor, at_close}
use jacred_go.Bencode.Decimal.{Digits, to_decimal, to_decimal-Digits, to_decimal-ne-nil}
use jacred_go.Bencode.Encode.{
  Sign, plus, minus, sign, Value, Values, Entries, Value.int, Value.bytes, Value.list, Value.dict,
  Values.nil, Values.cons, Entries.end, Entries.entry, encode, encode_values, encode_entries,
  encode_bytes,
}
use jacred_go.Bencode.ByteStrings.{at, parse_bytes-encode_bytes, length-encode_bytes}
use jacred_go.Bencode.Skip.{Token, token, value, items, entries, skip, skip_int, skip_value}

-- No byte closes an integer.
abbrev NoClose : Str → Type 0
NoClose = All (λ c. (c == b'e') ≡ false)

skip_int-NoClose :
    (i : ℕ) (s rest : Str)
    → NoClose s
    → skip_int i (s ++ (b'e' ∷ rest)) ≡ done (at (i + length s + 1) rest)
unfolding skip_int
skip_int-NoClose i [] rest h = ground arith
skip_int-NoClose i (c ∷ s) rest h = ground (arith, skip_int-NoClose (i + 1) s rest h.1)

Digits-NoClose : (s : Str) → Digits s → NoClose s
Digits-NoClose [] h = tt
Digits-NoClose (c ∷ s) h = (ground arith, Digits-NoClose s h.1)

sign-NoClose : (g : Sign) → NoClose (sign g)
sign-NoClose plus = tt
sign-NoClose minus = (refl, tt)

-- What stands before a byte string: a digit.
Digits-token : (s rest : Str) → Digits s → s ≢ [] → token (s ++ rest) ≡ Token.bytes
Digits-token [] rest h ne = absurd (ne refl)
Digits-token (c ∷ s) rest h ne = ground arith

Digits-at_close : (s rest : Str) → Digits s → s ≢ [] → at_close (s ++ rest) ≡ false
Digits-at_close [] rest h ne = absurd (ne refl)
Digits-at_close (c ∷ s) rest h ne = ground arith

pub token-encode_bytes : (v rest : Str) → token (encode_bytes v ++ rest) ≡ Token.bytes
unfolding encode_bytes
token-encode_bytes v rest =
    let n = length v in
    rw (append_assoc (to_decimal n) (b':' ∷ v) rest)
      (Digits-token (to_decimal n) _ (to_decimal-Digits n) (to_decimal-ne-nil n))

pub at_close-encode_bytes : (v rest : Str) → at_close (encode_bytes v ++ rest) ≡ false
unfolding encode_bytes
at_close-encode_bytes v rest =
    let n = length v in
    rw (append_assoc (to_decimal n) (b':' ∷ v) rest)
      (Digits-at_close (to_decimal n) _ (to_decimal-Digits n) (to_decimal-ne-nil n))

pub at_close-encode : (v : Value) (rest : Str) → at_close (encode v ++ rest) ≡ false
unfolding encode encode_values encode_entries
at_close-encode (int s n) rest = refl
at_close-encode (bytes v) rest = at_close-encode_bytes v rest
at_close-encode (list vs) rest = refl
at_close-encode (dict es) rest = refl

length-encode_pos : (v : Value) → 0 < length (encode v)
unfolding encode encode_values encode_entries
length-encode_pos (int s n) = omega arith
length-encode_pos (bytes v) = omega (arith, length-encode_bytes v)
length-encode_pos (list vs) = omega arith
length-encode_pos (dict es) = omega arith

length-encode_values_pos : (vs : Values) → 0 < length (encode_values vs)
unfolding encode_values
length-encode_values_pos nil = omega arith
length-encode_values_pos (cons v vs) =
    omega (arith, length-encode_pos v, length-append (encode v) (encode_values vs))

length-encode_entries_pos : (es : Entries) → 0 < length (encode_entries es)
unfolding encode_entries
length-encode_entries_pos end = omega arith
length-encode_entries_pos (entry k v es) =
    omega
      (arith, length-encode_bytes k, length-append (encode_bytes k) (encode v ++ encode_entries es))

int_body : (s n rest : Str) → (s ++ (n ++ b'e' ∷ [])) ++ rest ≡ (s ++ n) ++ (b'e' ∷ rest)
int_body s n rest = simp append_assoc

-- A step of the walk, from fuel that is not used up.
at_suc : (P : ℕ → Type 0) (f : ℕ) → 0 < f → P (suc (f - 1)) → P f
at_suc P f h p = let e : suc (f - 1) ≡ f = omega arith in rw e at p

module _ (f i : ℕ) (more : 0 < f) where
  skip-encode_bytes :
      (v rest : Str)
      → i + length (encode_bytes v) < int_limit
      → skip f value (at i (encode_bytes v ++ rest)) ≡ done (at (i + length (encode_bytes v)) rest)
  unfolding skip
  skip-encode_bytes v rest h =
      at_suc
        (λ g.
          skip g value (at i (encode_bytes v ++ rest))
          ≡ done (at (i + length (encode_bytes v)) rest))
        f more (rw (token-encode_bytes v rest, skip) (rw (parse_bytes-encode_bytes i v rest h)))

  -- Into an integer, a list and a dict.
  skip-int :
      (s rest : Str)
      → NoClose s
      → skip f value (at i (b'i' ∷ (s ++ (b'e' ∷ rest)))) ≡ done (at (i + length s + 2) rest)
  unfolding skip
  skip-int s rest h =
      at_suc
        (λ g. skip g value (at i (b'i' ∷ (s ++ (b'e' ∷ rest)))) ≡ done (at (i + length s + 2) rest))
        f more (skip_int-NoClose (i + 1) s rest h ∙ ap (λ k. done (at k rest)) (omega arith))

  skip-list :
      (s : Str) {o : Outcome Cursor}
      → skip (f - 1) items (at (i + 1) s) ≡ o
      → skip f value (at i (b'l' ∷ s)) ≡ o
  unfolding skip
  skip-list s {o} e = at_suc (λ g. skip g value (at i (b'l' ∷ s)) ≡ o) f more e

  skip-dict :
      (s : Str) {o : Outcome Cursor}
      → skip (f - 1) entries (at (i + 1) s) ≡ o
      → skip f value (at i (b'd' ∷ s)) ≡ o
  unfolding skip
  skip-dict s {o} e = at_suc (λ g. skip g value (at i (b'd' ∷ s)) ≡ o) f more e

  -- Out of the loops.
  skip-items_end : (rest : Str) → skip f items (at i (b'e' ∷ rest)) ≡ done (at (i + 1) rest)
  unfolding skip
  skip-items_end rest =
      at_suc (λ g. skip g items (at i (b'e' ∷ rest)) ≡ done (at (i + 1) rest)) f more refl

  skip-entries_end : (rest : Str) → skip f entries (at i (b'e' ∷ rest)) ≡ done (at (i + 1) rest)
  unfolding skip
  skip-entries_end rest =
      at_suc (λ g. skip g entries (at i (b'e' ∷ rest)) ≡ done (at (i + 1) rest)) f more refl

  -- One turn of the loop over a list, and of the loop over a dict.
  skip-items :
      (v : Value) {c' : Cursor} {o : Outcome Cursor} (s : Str)
      → skip (f - 1) value (at i (encode v ++ s)) ≡ done c'
      → skip (f - 1) items c' ≡ o
      → skip f items (at i (encode v ++ s)) ≡ o
  unfolding skip
  skip-items v {c'} {o} s e k =
      at_suc (λ g. skip g items (at i (encode v ++ s)) ≡ o) f more
        (rw (at_close-encode v s, skip) (rw (e) k))

  skip-entries :
      (k : Str) (v : Value) {c' : Cursor} {o : Outcome Cursor} (s : Str)
      → i + length (encode_bytes k) < int_limit
      → skip (f - 1) value (at (i + length (encode_bytes k)) (encode v ++ s)) ≡ done c'
      → skip (f - 1) entries c' ≡ o
      → skip f entries (at i (encode_bytes k ++ (encode v ++ s))) ≡ o
  unfolding skip
  skip-entries k v {c'} {o} s h e l =
      at_suc (λ g. skip g entries (at i (encode_bytes k ++ (encode v ++ s))) ≡ o) f more
        (rw (at_close-encode_bytes k (encode v ++ s), skip)
          (rw (parse_bytes-encode_bytes i k (encode v ++ s) h) (rw e l)))

-- The same place, counted another way.
moved : {i j : ℕ} (rest : Str) → i ≡ j → done (at i rest) ≡ done (at j rest)
moved rest e = ap (λ k. done (at k rest)) e

mutual
  unfolding encode encode_values encode_entries

  skip-encode_block :
      (v : Value) (f i : ℕ) (rest : Str)
      → 2 * length (encode v) ≤ f
      → i + length (encode v) < int_limit
      → skip f value (at i (encode v ++ rest)) ≡ done (at (i + length (encode v)) rest)
  skip-encode_block (int s n) f i rest h lim =
      let body = sign s ++ to_decimal n in
      let split = length-append (sign s) (to_decimal n ++ b'e' ∷ []) in
      rw (int_body (sign s) (to_decimal n) rest) (
        skip-int f i (omega arith) body rest (
          All-append _ (sign s) (to_decimal n) (sign-NoClose s)
            (Digits-NoClose _ (to_decimal-Digits n)))
        ∙ moved rest (
            omega (
              arith,
              split,
              length-append (sign s) (to_decimal n),
              length-append (to_decimal n) (b'e' ∷ []),
            )))
  skip-encode_block (bytes v) f i rest h lim =
      skip-encode_bytes f i (omega (arith, length-encode_bytes v)) v rest lim
  skip-encode_block (list vs) f i rest h lim =
      skip-list f i (omega arith) (encode_values vs ++ rest) (
        skip-encode_values vs (f - 1) (i + 1) rest (omega arith) (omega arith)
        ∙ moved rest (omega arith))
  skip-encode_block (dict es) f i rest h lim =
      skip-dict f i (omega arith) (encode_entries es ++ rest) (
        skip-encode_entries es (f - 1) (i + 1) rest (omega arith) (omega arith)
        ∙ moved rest (omega arith))

  skip-encode_values :
      (vs : Values) (f i : ℕ) (rest : Str)
      → 2 * length (encode_values vs) ≤ f
      → i + length (encode_values vs) < int_limit
      → skip f items (at i (encode_values vs ++ rest))
        ≡ done (at (i + length (encode_values vs)) rest)
  skip-encode_values nil f i rest h lim = skip-items_end f i (omega arith) rest
  skip-encode_values (cons v vs) f i rest h lim =
      let split = length-append (encode v) (encode_values vs) in
      let some_v = length-encode_pos v in
      let some_vs = length-encode_values_pos vs in
      rw (append_assoc (encode v) (encode_values vs) rest) (
        skip-items f i (omega arith) v (encode_values vs ++ rest)
          (skip-encode_block v (f - 1) i (encode_values vs ++ rest) (omega arith) (omega arith))
          (skip-encode_values vs (f - 1) (i + length (encode v)) rest (omega arith) (omega arith)
            ∙ moved rest (omega arith)))

  skip-encode_entries :
      (es : Entries) (f i : ℕ) (rest : Str)
      → 2 * length (encode_entries es) ≤ f
      → i + length (encode_entries es) < int_limit
      → skip f entries (at i (encode_entries es ++ rest))
        ≡ done (at (i + length (encode_entries es)) rest)
  skip-encode_entries end f i rest h lim = skip-entries_end f i (omega arith) rest
  skip-encode_entries (entry k v es) f i rest h lim =
      let split = length-append (encode_bytes k) (encode v ++ encode_entries es) in
      let split_v = length-append (encode v) (encode_entries es) in
      let some_v = length-encode_pos v in
      let some_es = length-encode_entries_pos es in
      let some_k = length-encode_bytes k in
      let j = i + length (encode_bytes k) in
      rw (append_assoc (encode_bytes k) (encode v ++ encode_entries es) rest) (
        rw (append_assoc (encode v) (encode_entries es) rest) (
          skip-entries f i (omega arith) k v (encode_entries es ++ rest) (omega arith)
            (skip-encode_block v (f - 1) j (encode_entries es ++ rest) (omega arith) (omega arith))
            (skip-encode_entries es (f - 1) (j + length (encode v)) rest (omega arith) (omega arith)
              ∙ moved rest (omega arith))))

-- On a written value that ends before position 2^63, with anything behind it, `skipValue` goes on to
-- exactly the end of that value.
pub skip_value-encode :
    (v : Value) (i : ℕ) (rest : Str)
    → i + length (encode v) < int_limit
    → skip_value (at i (encode v ++ rest)) ≡ done (at (i + length (encode v)) rest)
unfolding skip_value
skip_value-encode v i rest lim =
    skip-encode_block v _ i rest (omega (arith, length-append (encode v) rest)) lim
