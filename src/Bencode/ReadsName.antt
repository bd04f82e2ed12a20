-- ===== src/Bencode/ReadsName.antt =====
-- `torrentNameFromInfo` finds the name of a written info value.
use mathlib.Core.List.{append-nil, append_assoc}
use jacred_go.Base.{
  ℕ, zero, suc, ◌+◌, ◌<◌, ◌≤◌, ◌≡◌, refl, Bool, true, false, [], ◌∷◌, ◌++◌, Str, arith, codes,
  equal, ◌==◌, length, length-append, ◌∙◌, sym, ap, if◌then◌else◌,
}
use jacred_go.Bencode.Cursor.{int_limit, Outcome, done, ◌>>=◌, Cursor, parse_bytes, peek}
use jacred_go.Bencode.Encode.{
  Value, Entries, Value.int, Value.bytes, Value.list, Value.dict, Entries.end, Entries.entry,
  encode_bytes, encode, encode_entries,
}
use jacred_go.Bencode.ByteStrings.{at, parse_bytes-encode_bytes, length-encode_bytes}
use jacred_go.Bencode.SkipEncoded.{skip_value-encode, at_close-encode_bytes, token-encode_bytes}
use jacred_go.Bencode.Skip.{Token, token}
use jacred_go.Bencode.Meta.{under_key, find_name, name_from_info, name_or_empty}
use jacred_go.Bencode.Torrent.{text_of, name_of_entries, name_of}

-- `parseBytes` on the value under "name": its text, and an error where it is no byte string.
name_value :
    (v : Value) (i : ℕ) (rest : Str)
    → i + length (encode v) < int_limit
    → name_or_empty (parse_bytes (at i (encode v ++ rest)) >>= λ r. done r.0) ≡ done (text_of v)
unfolding encode
name_value (int g n) i rest h = unfold parse_bytes in refl
name_value (bytes v) i rest h = rw (parse_bytes-encode_bytes i v rest h)
name_value (list vs) i rest h = unfold parse_bytes in refl
name_value (dict es) i rest h = unfold parse_bytes in refl

-- One turn of the loop of `torrentNameFromInfo`.
under_key-encode :
    (b : Bool) (next : Cursor → Outcome Str) (v : Value) (i : ℕ) (s : Str) {later : Str}
    → i + length (encode v) < int_limit
    → name_or_empty (next (at (i + length (encode v)) s)) ≡ done later
    → name_or_empty (under_key b next (at i (encode v ++ s)))
      ≡ done (if b then text_of v else later)
unfolding under_key
under_key-encode true next v i s h e = name_value v i s h
under_key-encode false next v i s h e = rw (skip_value-encode v i s h) e

find_name_turn :
    (k : Str) (v : Value) (f i : ℕ) (s : Str) {later : Str}
    → i + length (encode_bytes k) < int_limit
    → i + length (encode_bytes k) + length (encode v) < int_limit
    → name_or_empty (find_name f (at (i + length (encode_bytes k) + length (encode v)) s))
      ≡ done later
    → name_or_empty (find_name (suc f) (at i (encode_bytes k ++ (encode v ++ s))))
      ≡ done (if equal k (codes "name") then text_of v else later)
unfolding find_name
find_name_turn k v f i s {later} h l e =
    rw (at_close-encode_bytes k (encode v ++ s), find_name)
      (rw (parse_bytes-encode_bytes i k (encode v ++ s) h) (
        under_key-encode (equal k (codes "name")) (find_name f) v (i + length (encode_bytes k)) s l
          e))

find_name-encode :
    (es : Entries) (f i : ℕ) (rest : Str)
    → length (encode_entries es) ≤ f
    → i + length (encode_entries es) < int_limit
    → name_or_empty (find_name f (at i (encode_entries es ++ rest))) ≡ done (name_of_entries es)
unfolding encode_entries
find_name-encode end zero i rest h lim = absurd (omega arith)
find_name-encode end (suc f) i rest h lim = unfold find_name in refl
find_name-encode (entry k v es) zero i rest h lim = absurd (
    omega (
      arith,
      length-encode_bytes k,
      length-append (encode_bytes k) (encode v ++ encode_entries es),
    ))
find_name-encode (entry k v es) (suc f) i rest h lim =
    let n = length-append (encode_bytes k) (encode v ++ encode_entries es) in
    let m = length-append (encode v) (encode_entries es) in
    let some_k = length-encode_bytes k in
    let j = i + length (encode_bytes k) in
    rw (append_assoc (encode_bytes k) (encode v ++ encode_entries es) rest) (
      rw (append_assoc (encode v) (encode_entries es) rest) (
        find_name_turn k v f i (encode_entries es ++ rest) (omega arith) (omega arith)
          (find_name-encode es f (j + length (encode v)) rest (omega arith) (omega arith))))

-- A byte string is no dict.
no_dict : (s : Str) → token (s ++ []) ≡ Token.bytes → (peek s == b'd') ≡ false
no_dict [] e = refl
no_dict (b ∷ s) e = ground arith

-- On a written info value of less than 2^63 bytes `torrentNameFromInfo` returns the text under its first
-- key "name", and the empty text where there is none or it is no byte string.
pub name_from_info-encode :
    (v : Value) → length (encode v) < int_limit → name_from_info (encode v) ≡ done (name_of v)
unfolding name_from_info encode
name_from_info-encode (int g n) h = refl
name_from_info-encode (bytes v) h = rw (no_dict (encode_bytes v) (token-encode_bytes v []))
name_from_info-encode (list vs) h = refl
name_from_info-encode (dict es) h =
    ap name_or_empty (
      ap (λ s. find_name (suc (length (encode (dict es)))) (at 1 s))
        (sym (append-nil (encode_entries es))))
    ∙ find_name-encode es (suc (length (encode (dict es)))) 1 [] (omega arith) (omega arith)
