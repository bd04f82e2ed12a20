-- ===== src/Config/TrackerKeys.antt =====
-- app/: each key of a tracker, written and read.
use jacred_go.Base.{Bool, true, false, ◌||◌, List, ◌++◌, Str, codes, equal, ◌≡◌, refl}
use jacred_go.Base.Atoi.{ℤ}
use jacred_go.Config.State.{LoginSettings, TrackerSettings, Config}
use jacred_go.Config.Keys.{set_tracker_kv, set_login_kv}
use jacred_go.Config.Reader.{ReaderState, read_lines, or_skip}
use jacred_go.Config.LineText.{read_line}
use jacred_go.Config.Writer.{write_indented, unless_empty, tracker_skip, tracker_login}
use jacred_go.Config.Scalars.{yaml_quote_string, yaml_int, yaml_bool}
use jacred_go.Config.Quoted.{IsClean}
use jacred_go.Config.Numbers.{IsInt}
use jacred_go.Config.Within.{Within, open_login-Within}
use jacred_go.Config.TrackerTrip.{
  or_old, read_lines-append, optional-Within, text-Within, flag-Within, number-Within,
  login_text-Within,
}

module _ (cfg : Config) (name : Str) (other : equal name (codes "globalproxy") ≡ false) where
  -- The parts of a tracker's lines, from any settings and state.
  pub append-Within :
      (xs ys : List Str) {t : TrackerSettings} {login : Bool} (st : ReaderState)
      → Within cfg name t login (read_lines ys (read_lines xs st))
      → Within cfg name t login (read_lines (xs ++ ys) st)
  append-Within xs ys st w = rw (read_lines-append xs ys st) w

  pub alias-Within :
      (s : Str) {t : TrackerSettings} {login : Bool} (st : ReaderState)
      → IsClean s
      → Within cfg name t login st
      → Within cfg name
          (record t { alias = or_old s t.alias })
          login
          (read_lines (unless_empty s (write_indented 2 "alias" (yaml_quote_string s))) st)
  unfolding set_tracker_kv
  alias-Within s st h w =
      optional-Within cfg name other (codes "alias") (λ s t. record t { alias = s }) (λ v t. refl)
        refl s h (λ t. t.alias) (λ t. refl) st w

  pub cookie-Within :
      (s : Str) {t : TrackerSettings} {login : Bool} (st : ReaderState)
      → IsClean s
      → Within cfg name t login st
      → Within cfg name
          (record t { cookie = or_old s t.cookie })
          login
          (read_lines (unless_empty s (write_indented 2 "cookie" (yaml_quote_string s))) st)
  unfolding set_tracker_kv
  cookie-Within s st h w =
      optional-Within cfg name other (codes "cookie") (λ s t. record t { cookie = s }) (λ v t. refl)
        refl s h (λ t. t.cookie) (λ t. refl) st w

  pub fetch_mode-Within :
      (s : Str) {t : TrackerSettings} {login : Bool} (st : ReaderState)
      → IsClean s
      → Within cfg name t login st
      → Within cfg name
          (record t { fetch_mode = or_old s t.fetch_mode })
          login
          (read_lines (unless_empty s (write_indented 2 "fetchmode" (yaml_quote_string s))) st)
  unfolding set_tracker_kv
  fetch_mode-Within s st h w =
      optional-Within cfg name other (codes "fetchmode") (λ s t. record t { fetch_mode = s })
        (λ v t. refl) refl s h (λ t. t.fetch_mode) (λ t. refl) st w

  pub user_agent-Within :
      (s : Str) {t : TrackerSettings} {login : Bool} (st : ReaderState)
      → IsClean s
      → Within cfg name t login st
      → Within cfg name
          (record t { user_agent = or_old s t.user_agent })
          login
          (read_lines (unless_empty s (write_indented 2 "useragent" (yaml_quote_string s))) st)
  unfolding set_tracker_kv
  user_agent-Within s st h w =
      optional-Within cfg name other (codes "useragent") (λ s t. record t { user_agent = s })
        (λ v t. refl) refl s h (λ t. t.user_agent) (λ t. refl) st w

  pub skip-Within :
      (b : Bool) {t : TrackerSettings} {login : Bool} (st : ReaderState)
      → Within cfg name t login st
      → Within cfg name
          (record t { insecure_skip_verify = b || t.insecure_skip_verify })
          login
          (read_lines (tracker_skip b) st)
  unfolding read_lines set_tracker_kv
  skip-Within true st w =
      flag-Within cfg name other (codes "insecureSkipVerify")
        (λ b t. record t { insecure_skip_verify = b }) (λ v t. refl) refl true st w
  skip-Within false st w = w

  pub host-Within :
      (s : Str) {t : TrackerSettings} {login : Bool} (st : ReaderState)
      → IsClean s
      → Within cfg name t login st
      → Within cfg name
          (record t { host = s })
          login
          (or_skip (read_line (write_indented 2 "host" (yaml_quote_string s))) st)
  unfolding set_tracker_kv
  host-Within s st h w =
      text-Within cfg name other (codes "host") (λ s t. record t { host = s }) (λ v t. refl) refl s
        h st w

  pub use_proxy-Within :
      (b : Bool) {t : TrackerSettings} {login : Bool} (st : ReaderState)
      → Within cfg name t login st
      → Within cfg name
          (record t { use_proxy = b })
          login
          (or_skip (read_line (write_indented 2 "useproxy" (yaml_bool b))) st)
  unfolding set_tracker_kv
  use_proxy-Within b st w =
      flag-Within cfg name other (codes "useproxy") (λ b t. record t { use_proxy = b })
        (λ v t. refl) refl b st w

  pub parse_delay-Within :
      (z : ℤ) {t : TrackerSettings} {login : Bool} (st : ReaderState)
      → IsInt z
      → Within cfg name t login st
      → Within cfg name
          (record t { parse_delay = z })
          login
          (or_skip (read_line (write_indented 2 "parseDelay" (yaml_int z))) st)
  unfolding set_tracker_kv
  parse_delay-Within z st h w =
      number-Within cfg name other (codes "parseDelay") (λ z t. record t { parse_delay = z })
        (λ v t. refl) refl z h st w

  pub log-Within :
      (b : Bool) {t : TrackerSettings} {login : Bool} (st : ReaderState)
      → Within cfg name t login st
      → Within cfg name
          (record t { log = b })
          login
          (or_skip (read_line (write_indented 2 "log" (yaml_bool b))) st)
  unfolding set_tracker_kv
  log-Within b st w =
      flag-Within cfg name other (codes "log") (λ b t. record t { log = b }) (λ v t. refl) refl b st
        w

  pub login_lines-Within :
      (l : LoginSettings) {t : TrackerSettings} {login : Bool} (st : ReaderState)
      → IsClean l.u
      → IsClean l.p
      → Within cfg name t login st
      → Within cfg name (record t { login = l }) true (read_lines (tracker_login l) st)
  unfolding read_lines set_login_kv read_line
  login_lines-Within l {t} {login} st hu hp w =
      let st1 : ReaderState = or_skip (read_line (codes "  login:")) st in
      let st2 : ReaderState =
        or_skip (read_line (write_indented 4 "u" (yaml_quote_string l.u))) st1 in
      login_text-Within cfg name other (codes "p")
        (λ s t. record t { login = record t.login { p = s } }) (λ v t. refl) refl l.p hp st2
        (login_text-Within cfg name other (codes "u")
          (λ s t. record t { login = record t.login { u = s } }) (λ v t. refl) refl l.u hu st1
          (open_login-Within cfg name other t login st w))
