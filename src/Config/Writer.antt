-- ===== src/Config/Writer.antt =====
-- app/config_writer.go: `MarshalYAML`.
use Prim.Native.String.{String}
use jacred_go.Base.{
  ℕ, zero, suc, Bool, true, false, List, [], ◌∷◌, ◌++◌, Option, none, some, Str, codes,
  if◌then◌else◌, map,
}
use jacred_go.Base.Trim.{is_empty}
use jacred_go.Config.State.{LoginSettings, ProxySettings, TrackerSettings, Config}
use jacred_go.Config.Scalars.{yaml_bool, yaml_int, yaml_quote_string}

-- The lines that the writer makes, without their line feeds.
abbrev pub key_line : Str → Str → Str
key_line key v = key ++ (b':' ∷ b' ' ∷ v)

abbrev pub indented : ℕ → Str → Str
indented zero s = s
indented (suc n) s = b' ' ∷ indented n s

-- `writeIndented`
abbrev pub write_indented : ℕ → String → Str → Str
write_indented n key v = indented n (key_line (codes key) v)

-- `writeScalar`
abbrev pub write_scalar : String → Str → Str
write_scalar key v = key_line (codes key) v

abbrev pub list_item : Str → Str
list_item v = codes "  - " ++ yaml_quote_string v

-- `writeList`
abbrev pub write_list : Str → List Str → List Str
write_list key [] = (key ++ codes ": []") ∷ []
write_list key (v ∷ vs) = (key ++ codes ":") ∷ map list_item (v ∷ vs)

abbrev pub unless_empty : Str → Str → List Str
unless_empty v line = if is_empty v then [] else line ∷ []

-- `writeTracker`, in parts.
abbrev pub tracker_texts : TrackerSettings → List Str
tracker_texts t =
    unless_empty t.alias (write_indented 2 "alias" (yaml_quote_string t.alias))
    ++ (unless_empty t.cookie (write_indented 2 "cookie" (yaml_quote_string t.cookie))
        ++ (unless_empty t.fetch_mode
              (write_indented 2 "fetchmode" (yaml_quote_string t.fetch_mode))
            ++ unless_empty t.user_agent
                (write_indented 2 "useragent" (yaml_quote_string t.user_agent))))

abbrev pub tracker_skip : Bool → List Str
tracker_skip true = write_indented 2 "insecureSkipVerify" (yaml_bool true) ∷ []
tracker_skip false = []

abbrev pub tracker_flags : TrackerSettings → List Str
tracker_flags t =
    write_indented 2 "useproxy" (yaml_bool t.use_proxy)
    ∷ write_indented 2 "parseDelay" (yaml_int t.parse_delay)
    ∷ write_indented 2 "log" (yaml_bool t.log)
    ∷ []

abbrev pub tracker_login : LoginSettings → List Str
tracker_login l =
    codes "  login:"
    ∷ write_indented 4 "u" (yaml_quote_string l.u)
    ∷ write_indented 4 "p" (yaml_quote_string l.p)
    ∷ []
    ∷ []

-- `writeTracker`
unfoldable pub write_tracker : Str → TrackerSettings → List Str
unfolding yaml_quote_string yaml_int
write_tracker name t =
    (name ++ b':' ∷ [])
    ∷ write_indented 2 "host" (yaml_quote_string t.host)
    ∷ (tracker_texts t
        ++ (tracker_skip t.insecure_skip_verify ++ (tracker_flags t ++ tracker_login t.login)))

abbrev write_trackers : List (Str × TrackerSettings) → List Str
write_trackers [] = []
write_trackers ((name, t) ∷ ts) = write_tracker name t ++ write_trackers ts

abbrev proxy_list : List Str → List Str
proxy_list [] = codes "      []" ∷ []
proxy_list (v ∷ vs) = map (λ (x : Str). codes "      - " ++ yaml_quote_string x) (v ∷ vs)

unfoldable pub write_proxy : ProxySettings → List Str
unfolding yaml_quote_string
write_proxy p =
    ((codes "  - pattern: " ++ yaml_quote_string p.pattern)
      ∷ write_indented 4 "useAuth" (yaml_bool p.use_auth)
      ∷ write_indented 4 "BypassOnLocal" (yaml_bool p.bypass_on_local)
      ∷ write_indented 4 "username" (yaml_quote_string p.username)
      ∷ write_indented 4 "password" (yaml_quote_string p.password)
      ∷ codes "    list:"
      ∷ [])
    ++ proxy_list p.list

abbrev write_proxies_of : List ProxySettings → List Str
write_proxies_of [] = []
write_proxies_of (p ∷ ps) = write_proxy p ++ write_proxies_of ps

abbrev write_proxies : List ProxySettings → List Str
write_proxies [] = codes "  []" ∷ []
write_proxies (p ∷ ps) = write_proxies_of (p ∷ ps)

abbrev shown_headless : Option Bool → Bool
shown_headless none = true
shown_headless (some b) = b

abbrev scalars_of_server : Config → List Str
scalars_of_server cfg =
    codes "---"
    ∷ write_scalar "listenip" (yaml_quote_string cfg.listen_ip)
    ∷ write_scalar "listenport" (yaml_int cfg.listen_port)
    ∷ write_scalar "apikey" (yaml_quote_string cfg.api_key)
    ∷ write_scalar "devkey" (yaml_quote_string cfg.dev_key)
    ∷ []
    ∷ write_scalar "fdbPathLevels" (yaml_int cfg.fdb_path_levels)
    ∷ write_scalar "mergeduplicates" (yaml_bool cfg.merge_duplicates)
    ∷ write_scalar "mergenumduplicates" (yaml_bool cfg.merge_num_duplicates)
    ∷ []
    ∷ write_scalar "scheduler" (yaml_bool cfg.scheduler)
    ∷ write_scalar "schedulerfile" (yaml_quote_string cfg.scheduler_file)
    ∷ write_scalar "log" (yaml_bool cfg.log)
    ∷ write_scalar "logParsers" (yaml_bool cfg.log_parsers)
    ∷ write_scalar "logFdb" (yaml_bool cfg.log_fdb)
    ∷ write_scalar "logFdbRetentionDays" (yaml_int cfg.log_fdb_retention_days)
    ∷ write_scalar "logFdbMaxSizeMb" (yaml_int cfg.log_fdb_max_size_mb)
    ∷ write_scalar "logFdbMaxFiles" (yaml_int cfg.log_fdb_max_files)
    ∷ []
    ∷ write_scalar "openstats" (yaml_bool cfg.open_stats)
    ∷ write_scalar "opensync" (yaml_bool cfg.open_sync)
    ∷ write_scalar "opensync_v1" (yaml_bool cfg.open_sync_v1)
    ∷ write_scalar "web" (yaml_bool cfg.web)
    ∷ []
    ∷ write_scalar "timeStatsUpdate" (yaml_int cfg.time_stats_update)
    ∷ write_scalar "timeSync" (yaml_int cfg.time_sync)
    ∷ write_scalar "timeSyncSpidr" (yaml_int cfg.time_sync_spidr)
    ∷ []
    ∷ write_scalar "syncapi" (yaml_quote_string cfg.sync_api)
    ∷ write_scalar "syncsport" (yaml_bool cfg.sync_sport)
    ∷ write_scalar "syncspidr" (yaml_bool cfg.sync_spidr)
    ∷ []

abbrev scalars_of_tracks : Config → List Str
scalars_of_tracks cfg =
    []
    ∷ write_scalar "maxreadfile" (yaml_int cfg.max_read_file)
    ∷ write_scalar "memlimit" (yaml_int cfg.mem_limit_mb)
    ∷ write_scalar "gcpercent" (yaml_int cfg.gc_percent)
    ∷ []
    ∷ write_scalar "tracks" (yaml_bool cfg.tracks)
    ∷ write_scalar "tracksmod" (yaml_int cfg.tracks_mod)
    ∷ write_scalar "tracksdelay" (yaml_int cfg.tracks_delay)
    ∷ write_scalar "trackslog" (yaml_bool cfg.tracks_log)
    ∷ write_scalar "tracksatempt" (yaml_int cfg.tracks_attempt)
    ∷ write_scalar "trackscategory" (yaml_quote_string cfg.tracks_category)
    ∷ codes "tracksinterval:"
    ∷ write_indented 2 "task0" (yaml_int cfg.tracks_interval.task0)
    ∷ write_indented 2 "task1" (yaml_int cfg.tracks_interval.task1)
    ∷ []

abbrev blocks_of : Config → List Str
blocks_of cfg =
    []
    ∷ codes "evercache:"
    ∷ write_indented 2 "enable" (yaml_bool cfg.evercache.enable)
    ∷ write_indented 2 "validHour" (yaml_int cfg.evercache.valid_hour)
    ∷ write_indented 2 "maxOpenWriteTask" (yaml_int cfg.evercache.max_open_write_task)
    ∷ write_indented 2 "dropCacheTake" (yaml_int cfg.evercache.drop_cache_take)
    ∷ []
    ∷ codes "flaresolverr_go:"
    ∷ write_indented 2 "headless" (yaml_bool (shown_headless cfg.flare_solverr_go.headless))
    ∷ write_indented 2 "browser_backend" (yaml_quote_string cfg.flare_solverr_go.browser_backend)
    ∷ write_indented 2 "browser_path" (yaml_quote_string cfg.flare_solverr_go.browser_path)
    ∷ write_indented 2 "driver_path" (yaml_quote_string cfg.flare_solverr_go.driver_path)
    ∷ write_indented 2 "chrome_version" (yaml_quote_string cfg.flare_solverr_go.chrome_version)
    ∷ []
    ∷ []

-- The lines of `MarshalYAML`.
unfoldable pub config_lines : Config → List Str
unfolding yaml_quote_string yaml_int write_tracker write_proxy
config_lines cfg =
    scalars_of_server cfg
    ++ write_list (codes "synctrackers") cfg.sync_trackers
    ++ write_list (codes "disable_trackers") cfg.disable_trackers
    ++ scalars_of_tracks cfg
    ++ write_list (codes "tsuri") cfg.ts_uri
    ++ blocks_of cfg
    ++ write_trackers cfg.trackers
    ++ (codes "globalproxy:" ∷ write_proxies cfg.global_proxy)

abbrev join_lines : List Str → Str
join_lines [] = []
join_lines (l ∷ ls) = l ++ (b'\n' ∷ join_lines ls)

-- `MarshalYAML`
unfoldable pub marshal_yaml : Config → Str
unfolding config_lines
marshal_yaml cfg = join_lines (config_lines cfg)
