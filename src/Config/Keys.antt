-- ===== src/Config/Keys.antt =====
-- app/config.go: `setTrackerKV`, `setProxyKV`, `setConfigKV`, and the keys of the nested blocks.
use jacred_go.Base.{
  Bool, true, false, List, [], ◌∷◌, Option, none, some, Str, codes, equal, if◌then◌else◌,
}
use jacred_go.Base.Dict.{find, has}
use jacred_go.Config.State.{
  ProxySettings, Evercache, TracksIntervalConfig, TrackerSettings, FlareSolverrGoConfig, Config,
}
use jacred_go.Config.Values.{unquote, parse_int_at, parse_bool_at}

-- `switch k`: the first case that is the key, if any.
abbrev pub switch : {A : Type 0} → Str → List (Str × A) → A → A
switch k [] otherwise = otherwise
switch k ((c, a) ∷ cases) otherwise = if equal k c then a else switch k cases otherwise

-- `setTrackerKV`
unfoldable pub set_tracker_kv : Str → Str → TrackerSettings → TrackerSettings
unfolding unquote parse_int_at parse_bool_at
set_tracker_kv k v t =
    switch k
      ((codes "host", record t { host = unquote v })
        ∷ (codes "alias", record t { alias = unquote v })
        ∷ (codes "cookie", record t { cookie = unquote v })
        ∷ (codes "useproxy", record t { use_proxy = parse_bool_at v })
        ∷ (codes "fetchmode", record t { fetch_mode = unquote v })
        ∷ (codes "useragent", record t { user_agent = unquote v })
        ∷ (codes "insecureSkipVerify", record t { insecure_skip_verify = parse_bool_at v })
        ∷ (codes "reqMinute", record t { req_minute = parse_int_at v })
        ∷ (codes "parseDelay", record t { parse_delay = parse_int_at v })
        ∷ (codes "log", record t { log = parse_bool_at v })
        ∷ [])
      t

-- The keys of `login`.
unfoldable pub set_login_kv : Str → Str → TrackerSettings → TrackerSettings
unfolding unquote
set_login_kv k v t =
    switch k
      ((codes "u", record t { login = record t.login { u = unquote v } })
        ∷ (codes "p", record t { login = record t.login { p = unquote v } })
        ∷ [])
      t

-- `setProxyKV`
unfoldable pub set_proxy_kv : Str → Str → ProxySettings → ProxySettings
unfolding unquote parse_bool_at
set_proxy_kv k v p =
    switch k
      ((codes "pattern", record p { pattern = unquote v })
        ∷ (codes "useAuth", record p { use_auth = parse_bool_at v })
        ∷ (codes "BypassOnLocal", record p { bypass_on_local = parse_bool_at v })
        ∷ (codes "username", record p { username = unquote v })
        ∷ (codes "password", record p { password = unquote v })
        ∷ [])
      p

unfoldable pub set_evercache_kv : Str → Str → Evercache → Evercache
unfolding parse_int_at parse_bool_at
set_evercache_kv k v e =
    switch k
      ((codes "enable", record e { enable = parse_bool_at v })
        ∷ (codes "validHour", record e { valid_hour = parse_int_at v })
        ∷ (codes "maxOpenWriteTask", record e { max_open_write_task = parse_int_at v })
        ∷ (codes "dropCacheTake", record e { drop_cache_take = parse_int_at v })
        ∷ [])
      e

unfoldable pub set_interval_kv : Str → Str → TracksIntervalConfig → TracksIntervalConfig
unfolding parse_int_at
set_interval_kv k v i =
    switch k
      ((codes "task0", record i { task0 = parse_int_at v })
        ∷ (codes "task1", record i { task1 = parse_int_at v })
        ∷ [])
      i

unfoldable pub set_flaresolverr_kv : Str → Str → FlareSolverrGoConfig → FlareSolverrGoConfig
unfolding unquote parse_bool_at
set_flaresolverr_kv k v f =
    switch k
      ((codes "browser_backend", record f { browser_backend = unquote v })
        ∷ (codes "browser_path", record f { browser_path = unquote v })
        ∷ (codes "driver_path", record f { driver_path = unquote v })
        ∷ (codes "headless", record f { headless = some (parse_bool_at v) })
        ∷ (codes "chrome_version", record f { chrome_version = unquote v })
        ∷ [])
      f

-- `setConfigKV`
unfoldable pub set_config_kv : Str → Str → Config → Config
unfolding unquote parse_int_at parse_bool_at
set_config_kv k v cfg =
    switch k
      ((codes "listenip", record cfg { listen_ip = unquote v })
        ∷ (codes "listenport", record cfg { listen_port = parse_int_at v })
        ∷ (codes "apikey", record cfg { api_key = unquote v })
        ∷ (codes "devkey", record cfg { dev_key = unquote v })
        ∷ (codes "mergeduplicates", record cfg { merge_duplicates = parse_bool_at v })
        ∷ (codes "mergenumduplicates", record cfg { merge_num_duplicates = parse_bool_at v })
        ∷ (codes "scheduler", record cfg { scheduler = parse_bool_at v })
        ∷ (codes "schedulerfile", record cfg { scheduler_file = unquote v })
        ∷ (codes "log", record cfg { log = parse_bool_at v })
        ∷ (codes "logParsers", record cfg { log_parsers = parse_bool_at v })
        ∷ (codes "logFdb", record cfg { log_fdb = parse_bool_at v })
        ∷ (codes "logFdbRetentionDays", record cfg { log_fdb_retention_days = parse_int_at v })
        ∷ (codes "logFdbMaxSizeMb", record cfg { log_fdb_max_size_mb = parse_int_at v })
        ∷ (codes "logFdbMaxFiles", record cfg { log_fdb_max_files = parse_int_at v })
        ∷ (codes "fdbPathLevels", record cfg { fdb_path_levels = parse_int_at v })
        ∷ (codes "openstats", record cfg { open_stats = parse_bool_at v })
        ∷ (codes "opensync", record cfg { open_sync = parse_bool_at v })
        ∷ (codes "opensync_v1", record cfg { open_sync_v1 = parse_bool_at v })
        ∷ (codes "web", record cfg { web = parse_bool_at v })
        ∷ (codes "syncapi", record cfg { sync_api = unquote v })
        ∷ (codes "syncsport", record cfg { sync_sport = parse_bool_at v })
        ∷ (codes "syncspidr", record cfg { sync_spidr = parse_bool_at v })
        ∷ (codes "maxreadfile", record cfg { max_read_file = parse_int_at v })
        ∷ (codes "memlimit", record cfg { mem_limit_mb = parse_int_at v })
        ∷ (codes "gcpercent", record cfg { gc_percent = parse_int_at v })
        ∷ (codes "timeStatsUpdate", record cfg { time_stats_update = parse_int_at v })
        ∷ (codes "timeSync", record cfg { time_sync = parse_int_at v })
        ∷ (codes "timeSyncSpidr", record cfg { time_sync_spidr = parse_int_at v })
        ∷ (codes "flaresolverr", record cfg { flare_solverr = unquote v })
        ∷ (codes "synctrackers", record cfg { sync_trackers = [] })
        ∷ (codes "disable_trackers", record cfg { disable_trackers = [] })
        ∷ (codes "tracks", record cfg { tracks = parse_bool_at v })
        ∷ (codes "tracksmod", record cfg { tracks_mod = parse_int_at v })
        ∷ (codes "tracksdelay", record cfg { tracks_delay = parse_int_at v })
        ∷ (codes "trackslog", record cfg { tracks_log = parse_bool_at v })
        ∷ (codes "tracksatempt", record cfg { tracks_attempt = parse_int_at v })
        ∷ (codes "trackscategory", record cfg { tracks_category = unquote v })
        ∷ (codes "tsuri", record cfg { ts_uri = [] })
        ∷ [])
      cfg

-- `isListKey`
abbrev pub is_list_key : Str → Bool
is_list_key k =
    switch k
      ((codes "synctrackers", true) ∷ (codes "disable_trackers", true) ∷ (codes "tsuri", true) ∷ [])
      false

-- `trackerByName`: the name of the tracker's field.
unfoldable pub tracker_by_name : Config → Str → Option Str
unfolding find
tracker_by_name cfg name =
    let field = if equal name (codes "Anilibria") then codes "Aniliberty" else name in
    if has field cfg.trackers then some field else none
