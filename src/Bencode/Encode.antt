-- ===== src/Bencode/Encode.antt =====
-- Bencode written from values: the independent description that the reader of
-- core/torrent_bencode.go is held against.
use jacred_go.Base.{ℕ, [], ◌∷◌, ◌++◌, Str, length}
use jacred_go.Bencode.Decimal.{to_decimal}

-- `<length>:<bytes>`
unfoldable pub encode_bytes : Str → Str
unfolding to_decimal
encode_bytes v = to_decimal (length v) ++ (b':' ∷ v)

pub data Sign : Type 0 where
  plus minus : Sign

abbrev pub sign : Sign → Str
sign plus = []
sign minus = b'-' ∷ []

-- A bencoded value; a dict's entries keep the order that they are written in.
mutual
  pub data Value : Type 0 where
    int : Sign → ℕ → Value
    bytes : Str → Value
    list : Values → Value
    dict : Entries → Value

  pub data Values : Type 0 where
    nil : Values
    cons : Value → Values → Values

  pub data Entries : Type 0 where
    end : Entries
    entry : Str → Value → Entries → Entries

unfoldable mutual
  pub encode : Value → Str
  encode (int s n) = b'i' ∷ (sign s ++ (to_decimal n ++ b'e' ∷ []))
  encode (bytes v) = encode_bytes v
  encode (list vs) = b'l' ∷ encode_values vs
  encode (dict es) = b'd' ∷ encode_entries es

  pub encode_values : Values → Str
  encode_values nil = b'e' ∷ []
  encode_values (cons v vs) = encode v ++ encode_values vs

  pub encode_entries : Entries → Str
  encode_entries end = b'e' ∷ []
  encode_entries (entry k v es) = encode_bytes k ++ (encode v ++ encode_entries es)
