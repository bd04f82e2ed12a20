-- ===== src/Bencode/Torrent.antt =====
-- A .torrent file as the writer of one means it: root fields in order, and the metadata that they
-- announce. `parseTorrentMeta` of core/torrent_bencode.go is held against this.
use jacred_go.Base.{◌≡◌, List, [], ◌∷◌, ◌++◌, Str, codes, equal, if◌then◌else◌}
use jacred_go.Bencode.Encode.{
  Value, Entries, Value.bytes, Value.dict, Entries.end, Entries.entry, encode_bytes, encode,
}
use jacred_go.Bencode.Meta.{Gathered, nothing_gathered, TorrentMeta, with_name, root_key, RootKey}

-- An item of the announce list: a tier of trackers, or one tracker by itself.
pub data Tier : Type 0 where
  single : Str → Tier
  tier : List Str → Tier

pub data Field : Type 0 where
  announce : Str → Field
  announce_list : List Tier → Field
  info : Value → Field
  other : Str → Value → Field

unfoldable pub encode_strs : List Str → Str
encode_strs [] = b'e' ∷ []
encode_strs (a ∷ urls) = encode_bytes a ++ encode_strs urls

unfoldable pub encode_tiers : List Tier → Str
encode_tiers [] = b'e' ∷ []
encode_tiers (single a ∷ ts) = encode_bytes a ++ encode_tiers ts
encode_tiers (tier urls ∷ ts) = (b'l' ∷ encode_strs urls) ++ encode_tiers ts

abbrev pub key : Field → Str
key (announce a) = codes "announce"
key (announce_list ts) = codes "announce-list"
key (info v) = codes "info"
key (other k v) = k

unfoldable pub encode_field : Field → Str
unfolding encode_tiers
encode_field (announce a) = encode_bytes a
encode_field (announce_list ts) = b'l' ∷ encode_tiers ts
encode_field (info v) = encode v
encode_field (other k v) = encode v

unfoldable pub encode_fields : List Field → Str
encode_fields [] = b'e' ∷ []
encode_fields (x ∷ xs) = encode_bytes (key x) ++ (encode_field x ++ encode_fields xs)

unfoldable pub encode_torrent : List Field → Str
encode_torrent fs = b'd' ∷ encode_fields fs

-- No field but the three named ones has their keys.
abbrev pub IsPlain : Field → Type 0
IsPlain (other k v) = root_key k ≡ RootKey.other
IsPlain _ = Unit

abbrev pub trackers : List Tier → List Str
trackers [] = []
trackers (single a ∷ ts) = a ∷ trackers ts
trackers (tier urls ∷ ts) = urls ++ trackers ts

abbrev pub gather : Gathered → Field → Gathered
gather g (announce a) = record g { announces = g.announces ++ a ∷ [] }
gather g (announce_list ts) = record g { announces = g.announces ++ trackers ts }
gather g (info v) = record g { info_raw = encode v }
gather g (other k v) = g

abbrev pub gather_all : Gathered → List Field → Gathered
gather_all g [] = g
gather_all g (x ∷ xs) = gather_all (gather g x) xs

-- The name: the text under the first key "name" of the info dict, if it is a byte string.
abbrev pub text_of : Value → Str
text_of (bytes s) = s
text_of _ = []

abbrev pub name_of_entries : Entries → Str
name_of_entries end = []
name_of_entries (entry k v es) =
    let later = name_of_entries es in if equal k (codes "name") then text_of v else later

abbrev pub name_of : Value → Str
name_of (dict es) = name_of_entries es
name_of _ = []

-- The last info value counts.
abbrev pub info_name : Str → List Field → Str
info_name n [] = n
info_name n (info v ∷ xs) = info_name (name_of v) xs
info_name n (_ ∷ xs) = info_name n xs

abbrev pub describe : List Field → TorrentMeta
describe fs = with_name (gather_all nothing_gathered fs) (info_name [] fs)
