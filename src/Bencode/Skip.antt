-- ===== src/Bencode/Skip.antt =====
-- core/torrent_bencode.go: `skipValue`, which steps over one value without keeping it.
use jacred_go.Base.{ℕ, zero, suc, ◌+◌, ◌*◌, true, false, [], ◌∷◌, Str, ◌==◌, if◌then◌else◌, length}
use jacred_go.Bencode.Cursor.{
  BencodeError, unexpected_eof, unterminated_int, unterminated_list, unterminated_dict,
  invalid_token, Outcome, done, fail, out_of_fuel, ◌>>=◌, Cursor, at_close, advance, is_digit,
  parse_bytes,
}

-- The cases of the switch on the next byte.
pub data Token : Type 0 where
  bytes int list dict eof invalid : Token

abbrev pub token : Str → Token
token [] = eof
token (b ∷ bs) =
    if is_digit b
    then bytes
    else if b == b'i'
    then int
    else if b == b'l'
    then list
    else if b == b'd'
    then dict
    else invalid

-- The inner loop of an integer, from behind its 'i': on to the byte behind the next 'e'.
unfoldable pub skip_int : ℕ → Str → Outcome Cursor
skip_int i [] = fail unterminated_int
skip_int i (b ∷ bs) =
    let more = skip_int (i + 1) bs in
    if b == b'e' then done (record { i = i + 1; rest = bs }) else more

-- Behind a loop: the closing 'e', or the end of the input.
abbrev pub close : BencodeError → Cursor → Outcome Cursor
close e c = elim c.rest [ [] ↦ fail e | _ ∷ _ ↦ done (advance c) ]

-- Where the walk stands: before a value, or in the loop over a list's or a dict's items.
pub data Place : Type 0 where
  value items entries : Place

-- `skipValue` with its two loops. Each step takes one unit of fuel.
unfoldable pub skip : ℕ → Place → Cursor → Outcome Cursor
unfolding parse_bytes skip_int
skip zero p c = out_of_fuel
skip (suc f) value c = elim (token c.rest) [
  | bytes ↦ parse_bytes c >>= λ r. done r.1
  | int ↦ skip_int (c.i + 1) (advance c).rest
  | list ↦ skip f items (advance c)
  | dict ↦ skip f entries (advance c)
  | eof ↦ fail unexpected_eof
  | invalid ↦ fail invalid_token
]
skip (suc f) items c = elim (at_close c.rest) [
  | true ↦ close unterminated_list c
  | false ↦ skip f value c >>= λ c'. skip f items c'
]
skip (suc f) entries c = elim (at_close c.rest) [
  | true ↦ close unterminated_dict c
  | false ↦ parse_bytes c >>= λ r. skip f value r.1 >>= λ c'. skip f entries c'
]

-- Enough for any input: a step into a value reads a byte, and a turn of a loop reads one at least.
abbrev pub skip_fuel : Str → ℕ
skip_fuel s = 2 * length s + 2

unfoldable pub skip_value : Cursor → Outcome Cursor
unfolding skip
skip_value c = skip (skip_fuel c.rest) value c
