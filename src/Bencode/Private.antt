-- ===== src/Bencode/Private.antt =====
-- A magnet made with no trackers carries nothing of the announce URLs.
use jacred_go.Base.{◌<◌, ◌≡◌, refl, List, [], ◌∷◌, ◌++◌, Str, All, length, if◌then◌else◌}
use jacred_go.Base.Trim.{is_empty}
use jacred_go.Bencode.Cursor.{int_limit, done, fail, no_info}
use jacred_go.Bencode.Encode.{encode}
use jacred_go.Bencode.Meta.{Gathered, nothing_gathered}
use jacred_go.Bencode.Torrent.{
  Field, Field.announce, Field.announce_list, Field.info, Field.other, encode_torrent, IsPlain,
  gather, gather_all, info_name,
}
use jacred_go.Bencode.Magnet.{build_magnet, to_magnet_no_trackers}
use jacred_go.Bencode.ReadsTorrent.{parse_torrent_meta-encode_torrent}

-- The last info value's bytes.
abbrev pub info_bytes : Str → List Field → Str
info_bytes raw [] = raw
info_bytes raw (info v ∷ xs) = info_bytes (encode v) xs
info_bytes raw (_ ∷ xs) = info_bytes raw xs

gather_all-info_raw :
    (fs : List Field) (g : Gathered) → (gather_all g fs).info_raw ≡ info_bytes g.info_raw fs
gather_all-info_raw [] g = refl
gather_all-info_raw (announce a ∷ fs) g = gather_all-info_raw fs (gather g (announce a))
gather_all-info_raw (announce_list ts ∷ fs) g = gather_all-info_raw fs (gather g (announce_list ts))
gather_all-info_raw (info v ∷ fs) g = gather_all-info_raw fs (gather g (info v))
gather_all-info_raw (other k v ∷ fs) g = gather_all-info_raw fs g

module _ (sha1_hex : Str → Str) where
  -- Of a written .torrent file of less than 2^63 bytes, in which no other field has the key of a named
  -- one, whatever bytes stand behind it, the magnet with no trackers is an error where there are no info
  -- bytes, and else the one made of the hash of exactly the last info value's bytes and of its name: the
  -- announces and the other fields have no part in it.
  pub to_magnet_no_trackers-encode_torrent :
      (fs : List Field) (rest : Str)
      → All IsPlain fs
      → length (encode_torrent fs) < int_limit
      → to_magnet_no_trackers sha1_hex (encode_torrent fs ++ rest) ≡ (
          if is_empty (info_bytes [] fs)
          then fail no_info
          else done (build_magnet (sha1_hex (info_bytes [] fs)) (info_name [] fs) []))
  unfolding to_magnet_no_trackers
  to_magnet_no_trackers-encode_torrent fs rest p lim =
      rw (parse_torrent_meta-encode_torrent fs rest p lim)
        (rw (gather_all-info_raw fs nothing_gathered))
