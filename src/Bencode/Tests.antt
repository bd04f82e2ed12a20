-- ===== src/Bencode/Tests.antt =====
-- core/torrent_bencode.go on small files.
use jacred_go.Base.{
  ◌+◌, ◌≡◌, ◌≢◌, refl, List, [], ◌∷◌, ◌++◌, Str, codes, length, ltb→lt, if◌then◌else◌, contains,
  ◌<◌, leb, true,
}
use jacred_go.Base.Sort.{IsIncreasing}
use jacred_go.Base.Trim.{is_empty}
use jacred_go.Bencode.Cursor.{
  done, fail, out_of_fuel, no_info, int_limit, parse_bytes, decimal_from,
}
use jacred_go.Bencode.Skip.{skip_value}
use jacred_go.Bencode.Decimal.{Digits}
use jacred_go.Bencode.Encode.{Value, Entries, Sign, encode, encode_bytes}
use jacred_go.Bencode.Torrent.{
  Field, announce, announce_list, info, other, single, tier, encode_torrent, encode_fields,
  encode_field, encode_tiers, encode_strs, describe, info_name,
}
use jacred_go.Bencode.Meta.{parse_torrent_meta}
use jacred_go.Bencode.Magnet.{to_magnet_no_trackers, build_magnet, trackers_of}
use jacred_go.Bencode.ByteStrings.{at}
use jacred_go.Bencode.SkipEncoded.{skip_value-encode}
use jacred_go.Bencode.ReadsTorrent.{parse_torrent_meta-encode_torrent}
use jacred_go.Bencode.MetaTotal.{parse_torrent_meta-ne-out_of_fuel}
use jacred_go.Bencode.Private.{to_magnet_no_trackers-encode_torrent, info_bytes}
use jacred_go.Bencode.Trackers.{trackers_of_lem, announced}
use jacred_go.Bencode.Oversized.{parse_bytes_bounds, byte_string}

abbrev sample_info : Value
sample_info = Value.dict (
    Entries.entry (codes "length") (Value.int Sign.plus 7)
      (Entries.entry (codes "name") (Value.bytes (codes "film")) Entries.end))

abbrev sample : List Field
sample =
    announce (codes "http://a")
    ∷ announce_list (single (codes "u") ∷ tier (codes "v" ∷ []) ∷ [])
    ∷ other (codes "x") (Value.int Sign.minus 5)
    ∷ info sample_info
    ∷ []

sample_short : length (encode_torrent sample) < int_limit
unfolding encode_torrent encode_fields encode_field encode_tiers encode_strs encode encode_bytes
sample_short = ltb→lt _ _ refl

info_short : length (encode sample_info) < int_limit
unfolding encode encode_bytes
info_short = ltb→lt _ _ refl

short_bytes : 3 + length (encode_bytes (codes "spam")) < int_limit
unfolding encode_bytes
short_bytes = ltb→lt _ _ refl

short_value : 3 + length (encode sample_info) < int_limit
unfolding encode encode_bytes
short_value = ltb→lt _ _ refl

parse_torrent_meta-encode_torrent_example :
    parse_torrent_meta (encode_torrent sample ++ codes "junk") ≡ done (describe sample)
parse_torrent_meta-encode_torrent_example =
    parse_torrent_meta-encode_torrent sample (codes "junk") (tt, (tt, (refl, (tt, tt))))
      sample_short

parse_torrent_meta-ne-out_of_fuel_example : parse_torrent_meta (codes "d4:infod") ≢ out_of_fuel
parse_torrent_meta-ne-out_of_fuel_example = parse_torrent_meta-ne-out_of_fuel (codes "d4:infod")

skip_value-encode_example :
    skip_value (at 3 (encode sample_info ++ codes "e"))
    ≡ done (at (3 + length (encode sample_info)) (codes "e"))
skip_value-encode_example = skip_value-encode sample_info 3 (codes "e") short_value

to_magnet_no_trackers-encode_torrent_example :
    to_magnet_no_trackers (λ s. codes "ab") (encode_torrent sample ++ []) ≡ (
      if is_empty (info_bytes [] sample)
      then fail no_info
      else done (build_magnet (codes "ab") (info_name [] sample) []))
to_magnet_no_trackers-encode_torrent_example =
    to_magnet_no_trackers-encode_torrent (λ s. codes "ab") sample [] (tt, (tt, (refl, (tt, tt))))
      sample_short

abbrev two_trackers : List Str
two_trackers = codes " v" ∷ codes "u" ∷ codes "v" ∷ []

trackers_of_lem_example :
    IsIncreasing (trackers_of two_trackers)
    × ((s : Str) → contains (trackers_of two_trackers) s ≡ announced two_trackers s)
trackers_of_lem_example = trackers_of_lem two_trackers

-- The largest `int` as a length, with a zero in front.
abbrev largest : Str
largest = codes "09223372036854775807"

largest-Digits : Digits largest
largest-Digits = (
  refl,
  (
    refl,
    (
      refl,
      (
        refl,
        (
          refl,
          (
            refl,
            (
              refl,
              (
                refl,
                (
                  refl,
                  (
                    refl,
                    (
                      refl,
                      (refl, (refl, (refl, (refl, (refl, (refl, (refl, (refl, (refl, tt))))))))),
                    ),
                  ),
                ),
              ),
            ),
          ),
        ),
      ),
    ),
  ),
)

largest-wraps : leb int_limit (1 + length largest + 1 + decimal_from 0 largest) ≡ true
largest-wraps = refl

parse_bytes_bounds_example :
    parse_bytes (at 1 (largest ++ (b':' ∷ [])))
    ≡ byte_string (1 + length largest + 1) (decimal_from 0 largest) []
parse_bytes_bounds_example =
    parse_bytes_bounds 1 largest [] largest-Digits (λ e. cc) (ltb→lt _ _ refl) (ltb→lt _ _ refl)
