-- ===== src/Store/Tests.antt =====
-- filedb/merge.go on a stored torrent of three fields.
use jacred_go.Base.{ℕ, ◌≡◌, [], ◌∷◌, codes}
use jacred_go.Base.Atoi.{pos}
use jacred_go.Store.Details.{scalar, text, int, null, strings, Conversions, Details}
use jacred_go.Store.Names.{Texts}
use jacred_go.Store.Record.{TorrentRecord, to_map, record_from_map, record_from_map-to_map}

abbrev no_conversions : Conversions ℕ
no_conversions = record { sprint = λ v. []; to_int = pos; to_int64 = pos }

abbrev plain_texts : Texts
plain_texts = record { parse_time = λ s. 1; format_time = λ n. codes "1"; lower = λ s. s }

abbrev stored : Details ℕ
stored =
    (codes "title", scalar (text (codes "film")))
    ∷ (codes "quality", scalar (int (pos 1080)))
    ∷ (codes "updateTime", scalar (text (codes "then")))
    ∷ []

abbrev parsed : Details ℕ
parsed =
    (codes "title", scalar (text (codes "film 2")))
    ∷ (codes "types", strings (codes "movie" ∷ []))
    ∷ []

abbrev film : TorrentRecord ℕ
film = record {
  tracker_name = codes "x";
  types = codes "movie" ∷ [];
  url = codes "x";
  title = codes "x";
  sid = pos 3;
  pir = pos 3;
  size_name = codes "x";
  size = pos 3;
  magnet = codes "x";
  create_time = codes "x";
  update_time = codes "x";
  name = codes "x";
  original_name = codes "x";
  relased = pos 3;
  download_id = codes "x";
  search_name = codes "x";
  search_orig = codes "x";
  quality = pos 3;
  video_type = codes "x";
  voices = codes "x";
  seasons = codes "x";
  languages = codes "x";
  download_uri = codes "x";
  tid = codes "x";
  ffprobe = scalar null;
}

record_from_map-to_map_example : record_from_map no_conversions (to_map film) ≡ film
record_from_map-to_map_example = record_from_map-to_map no_conversions film
