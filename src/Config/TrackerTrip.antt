-- ===== src/Config/TrackerTrip.antt =====
-- app/: a tracker's settings, written by `writeTracker` and read back.
use jacred_go.Base.{
  Bool, true, false, ◌||◌, List, [], ◌∷◌, ◌++◌, Str, codes, equal, ◌≡◌, refl, ap, ◌∙◌,
}
use jacred_go.Base.Atoi.{ℤ}
use jacred_go.Config.State.{TrackerSettings, Config}
use jacred_go.Config.Values.{strip_inline_comment, unquote, parse_int_at, parse_bool_at}
use jacred_go.Config.Keys.{set_tracker_kv, set_login_kv}
use jacred_go.Config.Reader.{ReaderState, read_lines, or_skip}
use jacred_go.Config.LineText.{read_line}
use jacred_go.Config.Writer.{indented, key_line, unless_empty}
use jacred_go.Config.Scalars.{yaml_quote_string, yaml_int, yaml_bool}
use jacred_go.Config.Quoted.{IsClean, yaml_quote_string-Reads}
use jacred_go.Config.Numbers.{IsInt, parse_int_at-yaml_int}
use jacred_go.Config.Lines.{is_key, is_key-IsKey}
use jacred_go.Config.Written.{
  yaml_quote_string-IsValue, yaml_int-IsValue, yaml_bool-IsValue, parse_bool_at-yaml_bool,
}
use jacred_go.Config.Within.{Within, kv-Within, login-Within}

-- The texts and numbers of a tracker that can be written.
abbrev pub IsWritable : TrackerSettings → Type 0
IsWritable t =
    IsClean t.host
    × IsClean t.alias
    × IsClean t.cookie
    × IsClean t.fetch_mode
    × IsClean t.user_agent
    × IsInt t.parse_delay
    × IsClean t.login.u
    × IsClean t.login.p

-- A text that is written only if it is not empty, over an old one.
abbrev pub or_old : Str → Str → Str
or_old [] old = old
or_old (c ∷ s) old = c ∷ s

-- What reading the settings `t` makes of the settings `old`.
abbrev pub over : TrackerSettings → TrackerSettings → TrackerSettings
over t old = record {
  host = t.host;
  alias = or_old t.alias old.alias;
  cookie = or_old t.cookie old.cookie;
  log = t.log;
  use_proxy = t.use_proxy;
  insecure_skip_verify = t.insecure_skip_verify || old.insecure_skip_verify;
  fetch_mode = or_old t.fetch_mode old.fetch_mode;
  user_agent = or_old t.user_agent old.user_agent;
  req_minute = old.req_minute;
  parse_delay = t.parse_delay;
  login = t.login;
}

pub read_lines-append :
    (xs ys : List Str) (st : ReaderState)
    → read_lines (xs ++ ys) st ≡ read_lines ys (read_lines xs st)
unfolding read_lines
read_lines-append [] ys st = refl
read_lines-append (x ∷ xs) ys st = read_lines-append xs ys (or_skip (read_line x) st)

read_text : (s : Str) → IsClean s → unquote (strip_inline_comment (b' ' ∷ yaml_quote_string s)) ≡ s
read_text s h = let (a, b, u) = yaml_quote_string-Reads s h in ap unquote b ∙ u

module _ (cfg : Config) (name : Str) (other : equal name (codes "globalproxy") ≡ false) where
  -- A key with a text.
  pub text-Within :
      (key : Str) (set : Str → TrackerSettings → TrackerSettings)
      → ((v : Str) (t : TrackerSettings) → set_tracker_kv key v t ≡ set (unquote v) t)
      → is_key key ≡ true
      → (s : Str) → IsClean s
      → {t : TrackerSettings} {login : Bool} (st : ReaderState) → Within cfg name t login st
      → Within cfg name
          (set s t)
          login
          (or_skip (read_line (indented 2 (key_line key (yaml_quote_string s)))) st)
  text-Within key set sets k s h {t} {login} st w =
      rw
        (← (
          sets (strip_inline_comment (b' ' ∷ yaml_quote_string s)) t
          ∙ ap (λ (x : Str). set x t) (read_text s h)))
        (kv-Within cfg name other key (yaml_quote_string s) t login st (is_key-IsKey key k)
          (yaml_quote_string-IsValue s h) w)

  -- A key that is left out where its text is empty.
  pub optional-Within :
      (key : Str) (set : Str → TrackerSettings → TrackerSettings)
      → ((v : Str) (t : TrackerSettings) → set_tracker_kv key v t ≡ set (unquote v) t)
      → is_key key ≡ true
      → (s : Str) → IsClean s
      → (old : TrackerSettings → Str) → ((t : TrackerSettings) → set (old t) t ≡ t)
      → {t : TrackerSettings} {login : Bool} (st : ReaderState) → Within cfg name t login st
      → Within cfg name
          (set (or_old s (old t)) t)
          login
          (read_lines (unless_empty s (indented 2 (key_line key (yaml_quote_string s)))) st)
  unfolding read_lines
  optional-Within key set sets k [] h old keeps {t} st w = rw (keeps t) w
  optional-Within key set sets k (c ∷ s) h old keeps st w =
      text-Within key set sets k (c ∷ s) h st w

  -- A key with a truth value, and with a number.
  pub flag-Within :
      (key : Str) (set : Bool → TrackerSettings → TrackerSettings)
      → ((v : Str) (t : TrackerSettings) → set_tracker_kv key v t ≡ set (parse_bool_at v) t)
      → is_key key ≡ true
      → (b : Bool) → {t : TrackerSettings} {login : Bool} (st : ReaderState)
      → Within cfg name t login st
      → Within cfg name
          (set b t)
          login
          (or_skip (read_line (indented 2 (key_line key (yaml_bool b)))) st)
  flag-Within key set sets k b {t} {login} st w =
      rw
        (← (
          sets (strip_inline_comment (b' ' ∷ yaml_bool b)) t
          ∙ ap (λ (x : Bool). set x t) (parse_bool_at-yaml_bool b)))
        (kv-Within cfg name other key (yaml_bool b) t login st (is_key-IsKey key k)
          (yaml_bool-IsValue b) w)

  pub number-Within :
      (key : Str) (set : ℤ → TrackerSettings → TrackerSettings)
      → ((v : Str) (t : TrackerSettings) → set_tracker_kv key v t ≡ set (parse_int_at v) t)
      → is_key key ≡ true
      → (z : ℤ) → IsInt z
      → {t : TrackerSettings} {login : Bool} (st : ReaderState) → Within cfg name t login st
      → Within cfg name
          (set z t)
          login
          (or_skip (read_line (indented 2 (key_line key (yaml_int z)))) st)
  number-Within key set sets k z h {t} {login} st w =
      rw
        (← (
          sets (strip_inline_comment (b' ' ∷ yaml_int z)) t
          ∙ ap (λ (x : ℤ). set x t) (parse_int_at-yaml_int z h)))
        (kv-Within cfg name other key (yaml_int z) t login st (is_key-IsKey key k)
          (yaml_int-IsValue z) w)

  pub login_text-Within :
      (key : Str) (set : Str → TrackerSettings → TrackerSettings)
      → ((v : Str) (t : TrackerSettings) → set_login_kv key v t ≡ set (unquote v) t)
      → is_key key ≡ true
      → (s : Str) → IsClean s
      → {t : TrackerSettings} (st : ReaderState) → Within cfg name t true st
      → Within cfg name
          (set s t)
          true
          (or_skip (read_line (indented 4 (key_line key (yaml_quote_string s)))) st)
  login_text-Within key set sets k s h {t} st w =
      rw
        (← (
          sets (strip_inline_comment (b' ' ∷ yaml_quote_string s)) t
          ∙ ap (λ (x : Str). set x t) (read_text s h)))
        (login-Within cfg name other key (yaml_quote_string s) t st (is_key-IsKey key k)
          (yaml_quote_string-IsValue s h) w)
