-- ===== src/Config/Tests.antt =====
-- app/: a tracker written and read at concrete settings.
use jacred_go.Base.{
  Bool, true, false, ◌&&◌, [], ◌∷◌, none, some, Str, codes, equal, ◌≡◌, refl, arith,
}
use jacred_go.Base.Dict.{find}
use jacred_go.Base.Atoi.{pos, negsuc}
use jacred_go.Config.State.{LoginSettings, TrackerSettings, Config}
use jacred_go.Config.Values.{strip_inline_comment, parse_int_at}
use jacred_go.Config.Keys.{tracker_by_name}
use jacred_go.Config.Reader.{read_lines, start_of}
use jacred_go.Config.Writer.{write_tracker}
use jacred_go.Config.Scalars.{yaml_quote_string, yaml_int}
use jacred_go.Config.Quoted.{is_clean, IsClean, Reads, yaml_quote_string-Reads}
use jacred_go.Config.Numbers.{parse_int_at-yaml_int}
use jacred_go.Config.Lines.{is_key-IsKey}
use jacred_go.Config.TrackerTrip.{over}
use jacred_go.Config.TrackerBlock.{read_lines-write_tracker}

all_clean : Str → Bool
all_clean [] = true
all_clean (c ∷ s) = is_clean c && all_clean s

all_clean-IsClean : (s : Str) → all_clean s ≡ true → IsClean s
unfolding all_clean
all_clean-IsClean [] h = tt
all_clean-IsClean (c ∷ s) h = (ground arith, all_clean-IsClean s (ground arith))

yaml_quote_string-Reads_example : Reads (yaml_quote_string (codes "a: #1 ")) (codes "a: #1 ")
unfolding all_clean
yaml_quote_string-Reads_example =
    yaml_quote_string-Reads (codes "a: #1 ") (all_clean-IsClean (codes "a: #1 ") refl)

parse_int_at-yaml_int_example :
    parse_int_at (strip_inline_comment (b' ' ∷ yaml_int (negsuc 6))) ≡ negsuc 6
parse_int_at-yaml_int_example = parse_int_at-yaml_int (negsuc 6) refl

abbrev no_login : LoginSettings
no_login = record { u = []; p = [] }

abbrev default_tracker : TrackerSettings
default_tracker = record {
  host = codes "https://torrent.by";
  alias = [];
  cookie = [];
  log = false;
  use_proxy = false;
  insecure_skip_verify = true;
  fetch_mode = [];
  user_agent = [];
  req_minute = pos 8;
  parse_delay = pos 7000;
  login = no_login;
}

abbrev edited_tracker : TrackerSettings
edited_tracker = record default_tracker {
  cookie = codes "uid=1; pass=x";
  insecure_skip_verify = false;
  parse_delay = pos 900;
}

abbrev a_config : Config
a_config = record {
  listen_ip = codes "any";
  listen_port = pos 9117;
  scheduler = false;
  scheduler_file = codes "crontab";
  api_key = [];
  dev_key = [];
  merge_duplicates = true;
  merge_num_duplicates = true;
  log = false;
  log_parsers = false;
  log_fdb = false;
  log_fdb_retention_days = pos 7;
  log_fdb_max_size_mb = pos 0;
  log_fdb_max_files = pos 0;
  fdb_path_levels = pos 2;
  open_stats = true;
  open_sync = true;
  open_sync_v1 = false;
  web = true;
  sync_api = [];
  sync_trackers = [];
  disable_trackers = [];
  sync_sport = true;
  sync_spidr = true;
  max_read_file = pos 200;
  mem_limit_mb = pos 0;
  gc_percent = pos 50;
  evercache = record {
    enable = true;
    valid_hour = pos 1;
    max_open_write_task = pos 500;
    drop_cache_take = pos 100;
  };
  time_stats_update = pos 90;
  time_sync = pos 60;
  time_sync_spidr = pos 60;
  tracks = false;
  tracks_mod = pos 0;
  tracks_delay = pos 20000;
  tracks_log = false;
  tracks_attempt = pos 5;
  tracks_category = codes "jacred";
  tracks_interval = record { task0 = pos 180; task1 = pos 60 };
  ts_uri = [];
  flare_solverr = [];
  flare_solverr_go = record {
    browser_backend = [];
    browser_path = [];
    driver_path = [];
    headless = none;
    chrome_version = [];
  };
  trackers = (codes "TorrentBy", default_tracker) ∷ (codes "Rudub", default_tracker) ∷ [];
  global_proxy = [];
}

abbrev torrent_by : Str
torrent_by = codes "TorrentBy"

read_lines-write_tracker_example :
    (find torrent_by
        (read_lines (write_tracker torrent_by edited_tracker) (start_of a_config)).cfg.trackers
      ≡ some (over edited_tracker default_tracker))
    × ((k : Str)
        → equal torrent_by k ≡ false
        → find k
            (read_lines (write_tracker torrent_by edited_tracker) (start_of a_config)).cfg.trackers
          ≡ find k a_config.trackers)
unfolding all_clean tracker_by_name find
read_lines-write_tracker_example =
    read_lines-write_tracker torrent_by edited_tracker default_tracker (start_of a_config) refl refl
      (is_key-IsKey torrent_by refl) refl refl
      (
        all_clean-IsClean edited_tracker.host refl,
        tt,
        all_clean-IsClean edited_tracker.cookie refl,
        tt,
        tt,
        refl,
        tt,
        tt,
      )
