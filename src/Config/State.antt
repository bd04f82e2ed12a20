-- ===== src/Config/State.antt =====
-- app/types.go: `Config` and its parts. The trackers are a map by the names of the fields.
use jacred_go.Base.{Bool, List, Option, Str}
use jacred_go.Base.Atoi.{ℤ}

pub record LoginSettings : Type 0 where
  pub u : Str
  pub p : Str

pub record ProxySettings : Type 0 where
  pub pattern : Str
  pub use_auth : Bool
  pub bypass_on_local : Bool
  pub username : Str
  pub password : Str
  pub list : List Str

pub record Evercache : Type 0 where
  pub enable : Bool
  pub valid_hour : ℤ
  pub max_open_write_task : ℤ
  pub drop_cache_take : ℤ

pub record TracksIntervalConfig : Type 0 where
  pub task0 : ℤ
  pub task1 : ℤ

pub record TrackerSettings : Type 0 where
  pub host : Str
  pub alias : Str
  pub cookie : Str
  pub log : Bool
  pub use_proxy : Bool
  pub insecure_skip_verify : Bool
  pub fetch_mode : Str
  pub user_agent : Str
  pub req_minute : ℤ
  pub parse_delay : ℤ
  pub login : LoginSettings

pub record FlareSolverrGoConfig : Type 0 where
  pub browser_backend : Str
  pub browser_path : Str
  pub driver_path : Str
  pub headless : Option Bool
  pub chrome_version : Str

pub record Config : Type 0 where
  pub listen_ip : Str
  pub listen_port : ℤ
  pub scheduler : Bool
  pub scheduler_file : Str
  pub api_key : Str
  pub dev_key : Str
  pub merge_duplicates : Bool
  pub merge_num_duplicates : Bool
  pub log : Bool
  pub log_parsers : Bool
  pub log_fdb : Bool
  pub log_fdb_retention_days : ℤ
  pub log_fdb_max_size_mb : ℤ
  pub log_fdb_max_files : ℤ
  pub fdb_path_levels : ℤ
  pub open_stats : Bool
  pub open_sync : Bool
  pub open_sync_v1 : Bool
  pub web : Bool
  pub sync_api : Str
  pub sync_trackers : List Str
  pub disable_trackers : List Str
  pub sync_sport : Bool
  pub sync_spidr : Bool
  pub max_read_file : ℤ
  pub mem_limit_mb : ℤ
  pub gc_percent : ℤ
  pub evercache : Evercache
  pub time_stats_update : ℤ
  pub time_sync : ℤ
  pub time_sync_spidr : ℤ
  pub tracks : Bool
  pub tracks_mod : ℤ
  pub tracks_delay : ℤ
  pub tracks_log : Bool
  pub tracks_attempt : ℤ
  pub tracks_category : Str
  pub tracks_interval : TracksIntervalConfig
  pub ts_uri : List Str
  pub flare_solverr : Str
  pub flare_solverr_go : FlareSolverrGoConfig
  pub trackers : List (Str × TrackerSettings)
  pub global_proxy : List ProxySettings
