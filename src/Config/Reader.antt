-- ===== src/Config/Reader.antt =====
-- app/config.go: `parseYAMLIntoConfig`, line by line.
-- A pointer into the configuration is the name of a tracker's field, or whether there is a current proxy, which
-- is the last one.
use jacred_go.Base.{
  Bool, true, false, not, ◌&&◌, ◌||◌, List, [], ◌∷◌, ◌++◌, Option, none, some, Str, codes, equal,
  leb, ◌==◌, if◌then◌else◌,
}
use jacred_go.Base.Dict.{find, put}
use jacred_go.Base.Split.{split_at}
use jacred_go.Base.Trim.{trim_space, is_empty}
use jacred_go.Config.State.{ProxySettings, TrackerSettings, Config}
use jacred_go.Config.Values.{contains_byte, strip_inline_comment, unquote, split_kv}
use jacred_go.Config.Keys.{
  switch, set_tracker_kv, set_login_kv, set_proxy_kv, set_evercache_kv, set_interval_kv,
  set_flaresolverr_kv, set_config_kv, is_list_key, tracker_by_name,
}
use jacred_go.Config.LineText.{
  Line, after_dash, before_colon, is_some_text, or_whole, read_line, unix_lines,
}

-- The variables of the loop.
pub record ReaderState : Type 0 where
  pub cfg : Config
  pub section : Str
  pub current_tracker : Option Str
  pub current_proxy : Bool
  pub in_tracker_login : Bool
  pub current_list_target : Str

abbrev pub opened_list : Str → Config → Config
opened_list section cfg = if is_list_key section then set_config_kv section [] cfg else cfg

abbrev pub opened_proxies : Str → Config → Config
opened_proxies section cfg =
    if equal section (codes "globalproxy") then record cfg { global_proxy = [] } else cfg

-- A section header.
abbrev pub open_section : Str → ReaderState → ReaderState
open_section name st = record {
  cfg = opened_proxies name (opened_list name st.cfg);
  section = name;
  current_tracker = tracker_by_name st.cfg name;
  current_proxy = false;
  in_tracker_login = false;
  current_list_target = if is_list_key name then name else [];
}

abbrev pub section_named : Line → ReaderState → Option Str → Option ReaderState
section_named l st none = none
section_named l st (some name) = if l.indent == 0 then some (open_section name st) else none

abbrev pub try_section : Line → ReaderState → Option ReaderState
try_section l st = section_named l st (before_colon l.structural)

-- The last proxy, changed.
abbrev on_last : (ProxySettings → ProxySettings) → List ProxySettings → List ProxySettings
on_last f [] = []
on_last f (p ∷ []) = f p ∷ []
on_last f (p ∷ q ∷ ps) = p ∷ on_last f (q ∷ ps)

abbrev on_proxy : (ProxySettings → ProxySettings) → Config → Config
on_proxy f cfg = record cfg { global_proxy = on_last f cfg.global_proxy }

abbrev empty_proxy : ProxySettings
empty_proxy = record {
  pattern = [];
  use_auth = false;
  bypass_on_local = false;
  username = [];
  password = [];
  list = [];
}

abbrev proxy_target : Str → Str
proxy_target k = if equal k (codes "list") then codes "proxy.list" else []

abbrev first_proxy_line : Str → ReaderState → ReaderState
first_proxy_line rest st =
    if contains_byte b':' rest
    then (record st {
      cfg = on_proxy (set_proxy_kv (split_kv rest).0 (split_kv rest).1) st.cfg;
      current_list_target = proxy_target (split_kv rest).0;
    })
    else st

abbrev pub try_proxy : Line → ReaderState → Option ReaderState
try_proxy l st =
    if not (equal st.section (codes "globalproxy"))
    then none
    else if l.indent == 2 && is_some_text (after_dash l.trimmed)
    then some (
        first_proxy_line (or_whole l.structural (after_dash l.structural)) (record st {
          cfg = record st.cfg { global_proxy = st.cfg.global_proxy ++ empty_proxy ∷ [] };
          current_proxy = true;
          current_list_target = [];
        }))
    else if st.current_proxy && l.indent == 4 && contains_byte b':' l.trimmed
    then some (record st {
      cfg = on_proxy (set_proxy_kv (split_kv l.trimmed).0 (split_kv l.trimmed).1) st.cfg;
      current_list_target = proxy_target (split_kv l.trimmed).0;
    })
    else if st.current_proxy
        && leb 6 l.indent
        && is_some_text (after_dash l.trimmed)
        && equal st.current_list_target (codes "proxy.list")
    then some (record st {
      cfg =
          on_proxy
            (λ (p : ProxySettings). record p {
              list =
                  p.list
                  ++ unquote (strip_inline_comment (or_whole l.trimmed (after_dash l.trimmed)))
                    ∷ [];
            })
            st.cfg;
    })
    else none

abbrev pub changed_settings :
    (TrackerSettings → TrackerSettings) → Str → Config → Option TrackerSettings → Config
changed_settings f name cfg none = cfg
changed_settings f name cfg (some t) = record cfg { trackers = put name (f t) cfg.trackers }

abbrev pub on_tracker : (TrackerSettings → TrackerSettings) → Str → Config → Config
on_tracker f name cfg = changed_settings f name cfg (find name cfg.trackers)

abbrev pub tracker_line : Line → ReaderState → Str → Option ReaderState
tracker_line l st name =
    if l.indent == 2 && is_some_text (before_colon l.structural)
    then some (record st {
      in_tracker_login = equal (or_whole l.structural (before_colon l.structural)) (codes "login");
    })
    else if l.indent == 2 && contains_byte b':' l.trimmed
    then some (record st {
      cfg = on_tracker (set_tracker_kv (split_kv l.trimmed).0 (split_kv l.trimmed).1) name st.cfg;
    })
    else if st.in_tracker_login && l.indent == 4 && contains_byte b':' l.trimmed
    then some (record st {
      cfg = on_tracker (set_login_kv (split_kv l.trimmed).0 (split_kv l.trimmed).1) name st.cfg;
    })
    else none

abbrev pub in_tracker : Line → ReaderState → Option Str → Option ReaderState
in_tracker l st none = none
in_tracker l st (some name) = tracker_line l st name

abbrev pub try_tracker : Line → ReaderState → Option ReaderState
try_tracker l st = in_tracker l st st.current_tracker

-- The keys of the other blocks.
abbrev in_block : Str → Str → Config → Config
in_block section t cfg =
    let (k, v) = split_kv t in
    switch section
      ((codes "evercache", record cfg { evercache = set_evercache_kv k v cfg.evercache })
        ∷ (
          codes "tracksinterval",
          record cfg { tracks_interval = set_interval_kv k v cfg.tracks_interval },
        )
        ∷ (
          codes "flaresolverr_go",
          record cfg { flare_solverr_go = set_flaresolverr_kv k v cfg.flare_solverr_go },
        )
        ∷ [])
      cfg

abbrev is_block : Str → Bool
is_block s =
    equal s (codes "evercache")
    || equal s (codes "tracksinterval")
    || equal s (codes "flaresolverr_go")

abbrev try_block : Line → ReaderState → Option ReaderState
try_block l st =
    if is_block st.section && l.indent == 2 && contains_byte b':' l.trimmed
    then some (record st { cfg = in_block st.section l.trimmed st.cfg })
    else none

abbrev next_target : Str → Str → Str → Str
next_target k v old = if is_list_key k then k else if is_empty v then old else []

abbrev try_root : Line → ReaderState → Option ReaderState
try_root l st =
    if l.indent == 0 && contains_byte b':' l.trimmed
    then some (record st {
      cfg = set_config_kv (split_kv l.trimmed).0 (split_kv l.trimmed).1 st.cfg;
      current_list_target =
          next_target (split_kv l.trimmed).0 (split_kv l.trimmed).1 st.current_list_target;
    })
    else none

abbrev add_item : Str → Str → Config → Config
add_item target v cfg =
    switch target
      ((codes "synctrackers", record cfg { sync_trackers = cfg.sync_trackers ++ v ∷ [] })
        ∷ (
          codes "disable_trackers",
          record cfg { disable_trackers = cfg.disable_trackers ++ v ∷ [] },
        )
        ∷ (codes "tsuri", record cfg { ts_uri = cfg.ts_uri ++ v ∷ [] })
        ∷ [])
      cfg

abbrev item_of : Line → ReaderState → Option Str → ReaderState
item_of l st none = st
item_of l st (some item) =
    if l.indent == 2
    then record st {
      cfg = add_item st.current_list_target (unquote (strip_inline_comment item)) st.cfg;
    }
    else st

abbrev try_item : Line → ReaderState → ReaderState
try_item l st = item_of l st (after_dash l.trimmed)

abbrev pub or_try : Option ReaderState → ReaderState → ReaderState
or_try none st = st
or_try (some s) st = s

abbrev pub past_trackers : Line → ReaderState → ReaderState
past_trackers l st = or_try (try_block l st) (or_try (try_root l st) (try_item l st))

-- One turn of the loop: the first of its branches that takes the line.
unfoldable pub take_line : Line → ReaderState → ReaderState
unfolding trim_space strip_inline_comment unquote split_kv find put set_tracker_kv set_login_kv
    set_proxy_kv set_evercache_kv set_interval_kv set_flaresolverr_kv set_config_kv tracker_by_name
take_line l st =
    or_try (try_section l st)
      (or_try (try_proxy l st) (or_try (try_tracker l st) (past_trackers l st)))

abbrev pub or_skip : Option Line → ReaderState → ReaderState
or_skip none st = st
or_skip (some l) st = take_line l st

unfoldable pub read_lines : List Str → ReaderState → ReaderState
unfolding read_line take_line
read_lines [] st = st
read_lines (raw ∷ ls) st = read_lines ls (or_skip (read_line raw) st)

abbrev pub start_of : Config → ReaderState
start_of cfg = record {
  cfg = cfg;
  section = [];
  current_tracker = none;
  current_proxy = false;
  in_tracker_login = false;
  current_list_target = [];
}

-- `parseYAMLIntoConfig`
unfoldable pub parse_yaml_into_config : Str → Config → Config
unfolding unix_lines split_at read_lines
parse_yaml_into_config text cfg = (read_lines (split_at b'\n' (unix_lines text)) (start_of cfg)).cfg
