-- ===== src/Bencode/Magnet.antt =====
-- core/torrent_bencode.go: `buildTorrentMagnet` and the three ways to make a magnet of a torrent.
-- SHA-1 with its hexadecimal digits (crypto/sha1, encoding/hex) is the parameter `sha1_hex`.
use jacred_go.Base.{
  ℕ, ◌+◌, ◌-◌, ◌/◌, ◌%◌, Bool, ◌&&◌, ◌||◌, List, [], ◌∷◌, ◌++◌, map, Str, codes, ltb, leb, ◌==◌,
  if◌then◌else◌,
}
use jacred_go.Base.Trim.{trim_space, is_empty, lower_byte}
use jacred_go.Base.Sort.{sort_strings}
use jacred_go.Base.Unique.{add_unique}
use jacred_go.Bencode.Cursor.{Outcome, done, fail, panic, out_of_fuel, ◌>>=◌, no_info}
use jacred_go.Bencode.Meta.{parse_torrent_meta}

-- `url.QueryEscape`: letters, digits and "-_.~" stay, a space is '+', any other byte is %XX.
abbrev is_unreserved : ℕ → Bool
is_unreserved c =
    leb b'a' c && leb c b'z'
    || leb b'A' c && leb c b'Z'
    || leb b'0' c && leb c b'9'
    || c == b'-'
    || c == b'_'
    || c == b'.'
    || c == b'~'

abbrev hex_digit : ℕ → ℕ
hex_digit n = if ltb n 10 then b'0' + n else b'A' + (n - 10)

abbrev escape_byte : ℕ → Str
escape_byte c =
    if is_unreserved c
    then c ∷ []
    else if c == b' '
    then b'+' ∷ []
    else b'%' ∷ hex_digit (c / 16) ∷ hex_digit (c % 16) ∷ []

pub query_escape : Str → Str
query_escape [] = []
query_escape (c ∷ s) = escape_byte c ++ query_escape s

-- One announce, trimmed as `t`, in the loop of `buildTorrentMagnet`. `seen` holds the texts of `uniq`.
abbrev pub add_tracker : List Str → Str → List Str
add_tracker uniq t = add_unique uniq t

unfoldable pub uniq_from : List Str → List Str → List Str
uniq_from uniq [] = uniq
uniq_from uniq (tr ∷ rest) = uniq_from (add_tracker uniq (trim_space tr)) rest

unfoldable pub trackers_of : List Str → List Str
trackers_of announces = sort_strings (uniq_from [] announces)

-- `strings.Join(parts, "&")`
unfoldable pub join_amp : List Str → Str
join_amp [] = []
join_amp (p ∷ []) = p
join_amp (p ∷ q ∷ ps) = p ++ (b'&' ∷ join_amp (q ∷ ps))

-- `buildTorrentMagnet`
unfoldable pub build_magnet : Str → Str → List Str → Str
unfolding query_escape
build_magnet hex_hash name announces =
    let hash = trim_space hex_hash in
    let xt = codes "magnet:?xt=urn:btih:" ++ map lower_byte hash in
    let dn = if is_empty (trim_space name) then [] else (codes "dn=" ++ query_escape name) ∷ [] in
    let tr = map (λ t. codes "tr=" ++ query_escape t) (trackers_of announces) in
    if is_empty hash then [] else join_amp (xt ∷ (dn ++ tr))

module _ (sha1_hex : Str → Str) where
  -- `TorrentBytesToMagnetErr`
  unfoldable pub to_magnet : Str → Outcome Str
  to_magnet raw = parse_torrent_meta raw >>= λ m.
      if is_empty m.info_raw
      then fail no_info
      else done (build_magnet (sha1_hex m.info_raw) m.name m.announces)

  -- `TorrentBytesToMagnetNoTrackersErr`
  unfoldable pub to_magnet_no_trackers : Str → Outcome Str
  to_magnet_no_trackers raw = parse_torrent_meta raw >>= λ m.
      if is_empty m.info_raw
      then fail no_info
      else done (build_magnet (sha1_hex m.info_raw) m.name [])

  -- `TorrentBytesToMagnet`: the empty text in place of an error.
  unfoldable pub to_magnet_or_empty : Str → Outcome Str
  to_magnet_or_empty raw = elim (parse_torrent_meta raw) [
    | done m ↦
        if is_empty m.info_raw
        then done []
        else done (build_magnet (sha1_hex m.info_raw) m.name m.announces)
    | fail e ↦ done []
    | panic ↦ panic
    | out_of_fuel ↦ out_of_fuel
  ]
