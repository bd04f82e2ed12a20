-- ===== src/Config/Within.antt =====
-- app/: the lines of a tracker, written and read.
use jacred_go.Base.{
  Bool, true, false, [], ◌∷◌, ◌++◌, Option, none, some, Str, codes, equal, equal_refl, ◌≡◌, refl,
  ap, ◌∙◌,
}
use jacred_go.Base.Dict.{find, find-put}
use jacred_go.Base.Trim.{strip, trim_space}
use jacred_go.Config.State.{TrackerSettings, Config}
use jacred_go.Config.Values.{contains_byte, before_comment, strip_inline_comment, split_kv}
use jacred_go.Config.Keys.{set_tracker_kv, set_login_kv, tracker_by_name, is_list_key}
use jacred_go.Config.Reader.{
  ReaderState, or_skip, take_line, or_try, in_tracker, tracker_line, section_named, try_proxy,
  try_tracker, past_trackers, on_tracker,
}
use jacred_go.Config.LineText.{Line, read_line, before_colon}
use jacred_go.Config.Writer.{indented, key_line}
use jacred_go.Config.Lines.{
  IsValue, IsKey, read_line-key_line, split_kv-key_line, contains_colon-key_line, read_line-header,
}

-- A state of the reader in the block of a tracker, with the tracker's settings so far; the other trackers are as
-- in the configuration it started from.
abbrev pub Within : Config → Str → TrackerSettings → Bool → ReaderState → Type 0
Within cfg name t login st =
    (st.section ≡ name)
    × (st.current_tracker ≡ some name)
    × (st.in_tracker_login ≡ login)
    × (find name st.cfg.trackers ≡ some t)
    × ((k : Str) → equal name k ≡ false → find k st.cfg.trackers ≡ find k cfg.trackers)

module _ (cfg : Config) (name : Str) (other : equal name (codes "globalproxy") ≡ false) where
  on_tracker-Within :
      (f : TrackerSettings → TrackerSettings) (t : TrackerSettings) (login : Bool)
      (st : ReaderState)
      → Within cfg name t login st
      → Within cfg name (f t) login (record st { cfg = on_tracker f name st.cfg })
  on_tracker-Within f t login st (sec, cur, log, here, rest) = rw here (
    sec,
    cur,
    log,
    find-put name name (f t) st.cfg.trackers ∙ rw (equal_refl name) refl,
    λ k n. find-put name k (f t) st.cfg.trackers ∙ rw n (rest k n),
  )

  turn :
      (x : Str) (st : ReaderState)
      → before_colon x ≡ none
      → contains_byte b':' x ≡ true
      → equal st.section (codes "globalproxy") ≡ false
      → st.current_tracker ≡ some name
      → take_line (record { indent = 2; trimmed = x; structural = x }) st ≡ (record st {
        cfg = on_tracker (set_tracker_kv (split_kv x).0 (split_kv x).1) name st.cfg;
      })
  unfolding take_line
  turn x st a b c d = rw (a, c, d, a, b) refl

  -- A line with a key of the tracker.
  pub kv-Within :
      (key v : Str) (t : TrackerSettings) (login : Bool) (st : ReaderState)
      → IsKey key
      → IsValue v
      → Within cfg name t login st
      → Within cfg name
          (set_tracker_kv key (strip_inline_comment (b' ' ∷ v)) t)
          login
          (or_skip (read_line (indented 2 (key_line key v))) st)
  kv-Within key v t login st k h (sec, cur, log, here, rest) =
      let (line, colon) = read_line-key_line 2 key v k h in
      let e : or_skip (read_line (indented 2 (key_line key v))) st ≡ (record st {
        cfg = on_tracker (set_tracker_kv key (strip_inline_comment (b' ' ∷ v))) name st.cfg;
      }) =
        ap (λ (l : Option Line). or_skip l st) line
        ∙ turn (key_line key v) st colon (contains_colon-key_line key v) (rw sec other) cur
        ∙ ap
            (λ (kv : Str × Str). record st {
              cfg = on_tracker (set_tracker_kv kv.0 kv.1) name st.cfg;
            })
            (split_kv-key_line key v k) in
      rw e (
        on_tracker-Within (set_tracker_kv key (strip_inline_comment (b' ' ∷ v))) t login st
          (sec, cur, log, here, rest))

  login_turn :
      (x : Str) (st : ReaderState)
      → before_colon x ≡ none
      → contains_byte b':' x ≡ true
      → equal st.section (codes "globalproxy") ≡ false
      → st.current_tracker ≡ some name
      → st.in_tracker_login ≡ true
      → take_line (record { indent = 4; trimmed = x; structural = x }) st
        ≡ (record st { cfg = on_tracker (set_login_kv (split_kv x).0 (split_kv x).1) name st.cfg })
  unfolding take_line
  login_turn x st a b c d e =
      ap
        (λ (o : Option Str).
          or_try (section_named l st o)
            (or_try (try_proxy l st) (or_try (try_tracker l st) (past_trackers l st))))
        a
      ∙ ap (λ (o : Option ReaderState). or_try o (or_try (try_tracker l st) (past_trackers l st)))
          no_proxy
      ∙ ap (λ (o : Option ReaderState). or_try o (past_trackers l st))
          (ap (in_tracker l st) d ∙ line)
    where
      l : Line
      l = record { indent = 4; trimmed = x; structural = x }

      no_proxy : try_proxy l st ≡ none
      no_proxy = rw c refl

      line :
          tracker_line l st name
          ≡ some (record st {
            cfg = on_tracker (set_login_kv (split_kv x).0 (split_kv x).1) name st.cfg;
          })
      line = rw (e, b) refl

  -- A line of its login.
  pub login-Within :
      (key v : Str) (t : TrackerSettings) (st : ReaderState)
      → IsKey key
      → IsValue v
      → Within cfg name t true st
      → Within cfg name
          (set_login_kv key (strip_inline_comment (b' ' ∷ v)) t)
          true
          (or_skip (read_line (indented 4 (key_line key v))) st)
  login-Within key v t st k h (sec, cur, log, here, rest) =
      let (line, colon) = read_line-key_line 4 key v k h in
      let e : or_skip (read_line (indented 4 (key_line key v))) st ≡ (record st {
        cfg = on_tracker (set_login_kv key (strip_inline_comment (b' ' ∷ v))) name st.cfg;
      }) =
        ap (λ (l : Option Line). or_skip l st) line
        ∙ login_turn (key_line key v) st colon (contains_colon-key_line key v) (rw sec other) cur
            log
        ∙ ap
            (λ (kv : Str × Str). record st {
              cfg = on_tracker (set_login_kv kv.0 kv.1) name st.cfg;
            })
            (split_kv-key_line key v k) in
      rw e (
        on_tracker-Within (set_login_kv key (strip_inline_comment (b' ' ∷ v))) t true st
          (sec, cur, log, here, rest))

  -- The line that opens the login.
  open_login_turn :
      (st : ReaderState)
      → equal st.section (codes "globalproxy") ≡ false
      → st.current_tracker ≡ some name
      → or_skip (read_line (codes "  login:")) st ≡ (record st { in_tracker_login = true })
  unfolding read_line take_line trim_space strip strip_inline_comment before_comment
  open_login_turn st c d = rw (c, d) refl

  pub open_login-Within :
      (t : TrackerSettings) (login : Bool) (st : ReaderState)
      → Within cfg name t login st
      → Within cfg name t true (or_skip (read_line (codes "  login:")) st)
  open_login-Within t login st (sec, cur, log, here, rest) =
      rw (open_login_turn st (rw sec other) cur) (sec, cur, refl, here, rest)

  -- The header of its block.
  pub open-Within :
      (t : TrackerSettings) (st : ReaderState)
      → IsKey name
      → is_list_key name ≡ false
      → tracker_by_name st.cfg name ≡ some name
      → find name st.cfg.trackers ≡ some t
      → ((k : Str) → find k st.cfg.trackers ≡ find k cfg.trackers)
      → Within cfg name t false (or_skip (read_line (name ++ b':' ∷ [])) st)
  unfolding take_line
  open-Within t st k list by here rest =
      let (line, colon) = read_line-header name k in
      rw (ap (λ (l : Option Line). or_skip l st) line)
        (rw (colon, list, other) (refl, by, refl, here, λ j n. rest j))
