-- ===== src/Bencode/Meta.antt =====
-- core/torrent_bencode.go: `parseTorrentMeta`, `torrentNameFromInfo` and `parseAnnounceList`.
use jacred_go.Base.{
  ℕ, zero, suc, ◌-◌, Bool, true, false, not, List, [], ◌∷◌, ◌++◌, Str, codes, equal, ◌==◌,
  if◌then◌else◌, length, take,
}
use jacred_go.Bencode.Cursor.{
  root_not_dict, unterminated_root, unterminated_nested, unterminated_announce, Outcome, done, fail,
  out_of_fuel, ◌>>=◌, Cursor, peek, at_close, advance, parse_bytes,
}
use jacred_go.Bencode.Skip.{close, skip_value}

-- The inner loop of `parseAnnounceList`, up to the 'e' of a tier.
unfoldable pub read_tier : ℕ → List Str → Cursor → Outcome (List Str × Cursor)
unfolding parse_bytes
read_tier zero out c = out_of_fuel
read_tier (suc f) out c = elim (at_close c.rest) [
  | true ↦ close unterminated_nested c >>= λ c'. done (out, c')
  | false ↦ parse_bytes c >>= λ r. read_tier f (out ++ r.0 ∷ []) r.1
]

-- The outer loop, over tiers and single announces.
unfoldable pub read_tiers : ℕ → List Str → Cursor → Outcome (List Str × Cursor)
unfolding read_tier
read_tiers zero out c = out_of_fuel
read_tiers (suc f) out c = elim (at_close c.rest) [
  | true ↦ close unterminated_announce c >>= λ c'. done (out, c')
  | false ↦ elim (peek c.rest == b'l') [
    | true ↦ read_tier (suc f) out (advance c) >>= λ r. read_tiers f r.0 r.1
    | false ↦ parse_bytes c >>= λ r. read_tiers f (out ++ r.0 ∷ []) r.1
  ]
]

-- `parseAnnounceList`. What is no list is stepped over, and announces nothing.
unfoldable pub parse_announce_list : Cursor → Outcome (List Str × Cursor)
unfolding read_tiers skip_value
parse_announce_list c =
    if not (peek c.rest == b'l')
    then (skip_value c >>= λ c'. done ([], c'))
    else read_tiers (suc (length c.rest)) [] (advance c)

-- The turn on a key that is "name", or is not; `next` is the rest of the loop.
unfoldable pub under_key : Bool → (Cursor → Outcome Str) → Cursor → Outcome Str
under_key true next c = parse_bytes c >>= λ v. done v.0
under_key false next c = skip_value c >>= next

-- The loop of `torrentNameFromInfo`.
unfoldable pub find_name : ℕ → Cursor → Outcome Str
unfolding under_key
find_name zero c = out_of_fuel
find_name (suc f) c = elim (at_close c.rest) [
  | true ↦ done []
  | false ↦ parse_bytes c >>= λ r. under_key (equal r.0 (codes "name")) (find_name f) r.1
]

-- An error inside the info dict is an empty name; a panic stays one.
abbrev pub name_or_empty : Outcome Str → Outcome Str
name_or_empty (fail e) = done []
name_or_empty o = o

-- `torrentNameFromInfo`
unfoldable pub name_from_info : Str → Outcome Str
name_from_info raw =
    if not (peek raw == b'd')
    then done []
    else name_or_empty (find_name (suc (length raw)) (advance (record { i = 0; rest = raw })))

-- What the loop of `parseTorrentMeta` has gathered.
pub record Gathered : Type 0 where
  pub info_raw : Str
  pub announces : List Str

abbrev pub nothing_gathered : Gathered
nothing_gathered = record { info_raw = []; announces = [] }

-- The cases of the switch on a root key.
pub data RootKey : Type 0 where
  announce announce_list info other : RootKey

abbrev pub root_key : Str → RootKey
root_key k =
    if equal k (codes "announce")
    then announce
    else if equal k (codes "announce-list")
    then announce_list
    else if equal k (codes "info")
    then info
    else other

-- The switch of `parseTorrentMeta` on a key, and `next`, the further turns of its loop.
unfoldable pub read_entry :
    (Gathered → Cursor → Outcome (Gathered × Cursor))
    → Gathered
    → RootKey
    → Cursor
    → Outcome (Gathered × Cursor)
read_entry next g announce c =
    parse_bytes c >>= λ v. next (record g { announces = g.announces ++ v.0 ∷ [] }) v.1
read_entry next g announce_list c =
    parse_announce_list c >>= λ v. next (record g { announces = g.announces ++ v.0 }) v.1
read_entry next g info c =
    skip_value c >>= λ c'. next (record g { info_raw = take (c'.i - c.i) c.rest }) c'
read_entry next g other c = skip_value c >>= λ c'. next g c'

-- The loop of `parseTorrentMeta`, from behind the root's 'd'.
unfoldable pub read_root : ℕ → Gathered → Cursor → Outcome (Gathered × Cursor)
unfolding read_entry
read_root zero g c = out_of_fuel
read_root (suc f) g c = elim (at_close c.rest) [
  | true ↦ close unterminated_root c >>= λ c'. done (g, c')
  | false ↦ parse_bytes c >>= λ k. read_entry (read_root f) g (root_key k.0) k.1
]

pub record TorrentMeta : Type 0 where
  pub info_raw : Str
  pub name : Str
  pub announces : List Str

abbrev pub with_name : Gathered → Str → TorrentMeta
with_name g n = record { info_raw = g.info_raw; name = n; announces = g.announces }

-- Behind the loop: the name from the info dict.
unfoldable pub finish : Gathered → Outcome TorrentMeta
finish g = name_from_info g.info_raw >>= λ n. done (with_name g n)

-- `parseTorrentMeta`. Bytes behind the root dict are not read.
unfoldable pub parse_torrent_meta : Str → Outcome TorrentMeta
unfolding finish
parse_torrent_meta raw =
    if not (peek raw == b'd')
    then fail root_not_dict
    else read_root (suc (length raw)) nothing_gathered (advance (record { i = 0; rest = raw }))
      >>= λ r. finish r.0
