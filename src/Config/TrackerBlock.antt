-- ===== src/Config/TrackerBlock.antt =====
-- app/: the block of a tracker, written and read.
use jacred_go.Base.{Bool, true, false, List, [], ◌∷◌, ◌++◌, some, Str, codes, equal, ◌≡◌, refl}
use jacred_go.Base.Dict.{find}
use jacred_go.Config.State.{TrackerSettings, Config}
use jacred_go.Config.Keys.{tracker_by_name, is_list_key}
use jacred_go.Config.Reader.{ReaderState, read_lines, or_skip}
use jacred_go.Config.LineText.{read_line}
use jacred_go.Config.Writer.{
  write_indented, unless_empty, tracker_skip, tracker_texts, tracker_flags, tracker_login,
  write_tracker,
}
use jacred_go.Config.Scalars.{yaml_quote_string, yaml_int, yaml_bool}
use jacred_go.Config.Quoted.{IsClean}
use jacred_go.Config.Numbers.{IsInt}
use jacred_go.Config.Lines.{IsKey}
use jacred_go.Config.Within.{Within, open-Within}
use jacred_go.Config.TrackerTrip.{or_old, over, IsWritable}
use jacred_go.Config.TrackerKeys.{
  append-Within, alias-Within, cookie-Within, fetch_mode-Within, user_agent-Within, skip-Within,
  host-Within, use_proxy-Within, parse_delay-Within, log-Within, login_lines-Within,
}

-- The settings with the texts of others that are not empty.
abbrev with_texts : TrackerSettings → TrackerSettings → TrackerSettings
with_texts t s = record s {
  alias = or_old t.alias s.alias;
  cookie = or_old t.cookie s.cookie;
  fetch_mode = or_old t.fetch_mode s.fetch_mode;
  user_agent = or_old t.user_agent s.user_agent;
}

abbrev with_flags : TrackerSettings → TrackerSettings → TrackerSettings
with_flags t s = record s { use_proxy = t.use_proxy; parse_delay = t.parse_delay; log = t.log }

module _ (cfg : Config) (name : Str) (other : equal name (codes "globalproxy") ≡ false) where
  texts-Within :
      (t : TrackerSettings) {s : TrackerSettings} {login : Bool} (st : ReaderState)
      → IsClean t.alias
      → IsClean t.cookie
      → IsClean t.fetch_mode
      → IsClean t.user_agent
      → Within cfg name s login st
      → Within cfg name (with_texts t s) login (read_lines (tracker_texts t) st)
  texts-Within t {s} {login} st ha hc hf hu w =
      let a : List Str =
        unless_empty t.alias (write_indented 2 "alias" (yaml_quote_string t.alias)) in
      let c : List Str =
        unless_empty t.cookie (write_indented 2 "cookie" (yaml_quote_string t.cookie)) in
      let f : List Str =
        unless_empty t.fetch_mode (write_indented 2 "fetchmode" (yaml_quote_string t.fetch_mode)) in
      let u : List Str =
        unless_empty t.user_agent (write_indented 2 "useragent" (yaml_quote_string t.user_agent)) in
      let st1 : ReaderState = read_lines a st in
      let st2 : ReaderState = read_lines c st1 in
      let st3 : ReaderState = read_lines f st2 in
      append-Within cfg name other a (c ++ (f ++ u)) st (
        append-Within cfg name other c (f ++ u) st1 (
          append-Within cfg name other f u st2 (
            user_agent-Within cfg name other t.user_agent st3 hu (
              fetch_mode-Within cfg name other t.fetch_mode st2 hf (
                cookie-Within cfg name other t.cookie st1 hc
                  (alias-Within cfg name other t.alias st ha w))))))

  flags-Within :
      (t : TrackerSettings) {s : TrackerSettings} {login : Bool} (st : ReaderState)
      → IsInt t.parse_delay
      → Within cfg name s login st
      → Within cfg name (with_flags t s) login (read_lines (tracker_flags t) st)
  unfolding read_lines
  flags-Within t {s} {login} st hd w =
      let st1 : ReaderState =
        or_skip (read_line (write_indented 2 "useproxy" (yaml_bool t.use_proxy))) st in
      let st2 : ReaderState =
        or_skip (read_line (write_indented 2 "parseDelay" (yaml_int t.parse_delay))) st1 in
      log-Within cfg name other t.log st2 (
        parse_delay-Within cfg name other t.parse_delay st1 hd
          (use_proxy-Within cfg name other t.use_proxy st w))

  two_lines :
      (x y : Str) (ls : List Str) (st : ReaderState)
      → read_lines (x ∷ y ∷ ls) st
        ≡ read_lines ls (or_skip (read_line y) (or_skip (read_line x) st))
  unfolding read_lines
  two_lines x y ls st = refl

  two_lines-Within :
      (x y : Str) (ls : List Str) {s : TrackerSettings} {login : Bool} (st : ReaderState)
      → Within cfg name s login (read_lines ls (or_skip (read_line y) (or_skip (read_line x) st)))
      → Within cfg name s login (read_lines (x ∷ y ∷ ls) st)
  two_lines-Within x y ls st w = rw (two_lines x y ls st) w

  write_tracker-Within :
      (t old : TrackerSettings) (st : ReaderState)
      → IsWritable t
      → IsKey name
      → is_list_key name ≡ false
      → tracker_by_name st.cfg name ≡ some name
      → find name st.cfg.trackers ≡ some old
      → ((k : Str) → find k st.cfg.trackers ≡ find k cfg.trackers)
      → Within cfg name (over t old) true (read_lines (write_tracker name t) st)
  unfolding write_tracker
  write_tracker-Within t old st (host, alias, cookie, mode, agent, delay, user, pass) k list by here
        rest =
      let x : Str = write_indented 2 "host" (yaml_quote_string t.host) in
      let st1 : ReaderState = or_skip (read_line (name ++ b':' ∷ [])) st in
      let st2 : ReaderState = or_skip (read_line x) st1 in
      let st3 : ReaderState = read_lines (tracker_texts t) st2 in
      let st4 : ReaderState = read_lines (tracker_skip t.insecure_skip_verify) st3 in
      let st5 : ReaderState = read_lines (tracker_flags t) st4 in
      let flags : List Str = tracker_flags t ++ tracker_login t.login in
      let w2 =
        host-Within cfg name other t.host st1 host
          (open-Within cfg name other old st k list by here rest) in
      let w4 =
        skip-Within cfg name other t.insecure_skip_verify st3
          (texts-Within t st2 alias cookie mode agent w2) in
      let w6 =
        login_lines-Within cfg name other t.login st5 user pass (flags-Within t st4 delay w4) in
      two_lines-Within (name ++ b':' ∷ []) x
        (tracker_texts t ++ (tracker_skip t.insecure_skip_verify ++ flags)) st
        (append-Within cfg name other (tracker_texts t)
          (tracker_skip t.insecure_skip_verify ++ flags) st2
          (append-Within cfg name other (tracker_skip t.insecure_skip_verify) flags st3
            (append-Within cfg name other (tracker_flags t) (tracker_login t.login) st4 w6)))

-- If the texts of the settings are printable ASCII without double quotes and backslashes, the delay is a 64-bit
-- integer and the name is that of a tracker's field, reading the lines that `writeTracker` makes gives the settings
-- back, save that a text that is empty, the check of certificates where it is on, and `reqMinute`, which are not
-- written, stay as they were; no other tracker changes.
pub read_lines-write_tracker :
    (name : Str) (t old : TrackerSettings) (st : ReaderState)
    → equal name (codes "globalproxy") ≡ false
    → is_list_key name ≡ false
    → IsKey name
    → tracker_by_name st.cfg name ≡ some name
    → find name st.cfg.trackers ≡ some old
    → IsWritable t
    → (find name (read_lines (write_tracker name t) st).cfg.trackers ≡ some (over t old))
      × ((k : Str)
          → equal name k ≡ false
          → find k (read_lines (write_tracker name t) st).cfg.trackers ≡ find k st.cfg.trackers)
read_lines-write_tracker name t old st other list k by here w =
    let (sec, cur, log, found, rest) =
      write_tracker-Within st.cfg name other t old st w k list by here (λ j. refl) in
    (found, rest)
