-- ===== src/Cron/Crontab.antt =====
-- background/crontabfile.go: the crontab file as entries, read, checked, rendered and written.
-- A file is the list of the lines that `bufio.Scanner` gives; the scanner's stop at a line of more than
-- a mebibyte is left out.
use jacred_go.Base.{
  ℕ, zero, suc, ◌+◌, Bool, true, false, not, ◌&&◌, ◌||◌, List, [], ◌∷◌, ◌++◌, Option, none, some,
  Str, codes, ◌==◌, if◌then◌else◌, length, drop,
}
use jacred_go.Base.Trim.{trim_space, is_empty, space_width}
use jacred_go.Cron.Field.{Result, done, fail, panic, out_of_fuel, ◌>>=◌}
use jacred_go.Cron.Schedule.{parse_schedule}
use jacred_go.Cron.JobLine.{
  Job, parse_job_line, leading_space, trim_left_blank, trim_right_blank, has_prefix,
}

-- `CrontabEntry`: the fields that its kind has.
pub data Entry : Type 0 where
  text : ℕ → Str → Entry
  job : ℕ → Job → (disabled : Bool) → (indent : Str) → Entry

-- A line without its comment sign, and whether it has one.
abbrev pub candidate : Str → Str × Bool
candidate [] = ([], false)
candidate (c ∷ s) = if c == b'#' then (trim_space s, true) else (c ∷ s, false)

-- One turn of the loop of `ParseCrontabEntries`: the entry, and whether there is a warning. The line is
-- given as it is and trimmed.
abbrev pub entry_of : ℕ → Str → Str → Str × Bool → Option Job → Entry × Bool
entry_of n raw body c (some j) = (job n j c.1 (leading_space raw), false)
entry_of n raw body c none = (text n raw, not c.1 && not (is_empty body))

abbrev pub body_entry : ℕ → Str → Str → Result (Entry × Bool)
body_entry n raw body =
    let c = candidate body in parse_job_line c.0 >>= λ j. done (entry_of n raw body c j)

unfoldable pub parse_line : ℕ → Str → Result (Entry × Bool)
unfolding parse_job_line trim_space leading_space
parse_line n raw = body_entry n raw (trim_space raw)

-- `ParseCrontabEntries`, from line `n` on; a warning is the number of its line.
unfoldable pub parse_entries : ℕ → List Str → Result (List Entry × List ℕ)
unfolding parse_line
parse_entries n [] = done ([], [])
parse_entries n (raw ∷ rest) = parse_line n raw >>= λ e.
    parse_entries (n + 1) rest >>= λ r. done (e.0 ∷ r.0, if e.1 then n ∷ r.1 else r.1)

abbrev or_default : Str → Str
or_default gap = if is_empty gap then codes "    " else gap

abbrev with_flags : Str → Str
with_flags f = if is_empty f then [] else b' ' ∷ f

-- One turn of the loop of `RenderCrontabEntries`, up to the line break.
unfoldable pub render_entry : Entry → Str
unfolding trim_left_blank trim_right_blank trim_space
render_entry (text n raw) = raw
render_entry (job n j disabled indent) =
    (if disabled then codes "# " else [])
    ++ (indent
        ++ (trim_right_blank (trim_left_blank j.spec)
            ++ (or_default j.gap
                ++ (codes "curl"
                    ++ (with_flags (trim_space j.flags)
                        ++ (codes " \"" ++ (j.url ++ codes "\"")))))))

-- `RenderCrontabEntries`
unfoldable pub render_entries : List Entry → Str
unfolding render_entry
render_entries [] = []
render_entries (e ∷ es) = render_entry e ++ (b'\n' ∷ render_entries es)

abbrev last_word : Str → List Str
last_word acc = if is_empty acc then [] else acc ∷ []

-- `strings.Fields`; `acc` is the word so far. Each turn reads a byte, so the length is enough fuel.
unfoldable pub fields_from : ℕ → Str → Str → List Str
fields_from zero acc s = last_word acc
fields_from (suc f) acc [] = last_word acc
fields_from (suc f) acc (c ∷ s) = elim (space_width (c ∷ s)) [
  | zero ↦ fields_from f (acc ++ c ∷ []) s
  | suc w ↦ last_word acc ++ fields_from f [] (drop (suc w) (c ∷ s))
]

abbrev pub fields : Str → List Str
fields s = fields_from (length s) [] s

abbrev pub contains_byte : (ℕ → Bool) → Str → Bool
contains_byte p [] = false
contains_byte p (c ∷ s) = p c || contains_byte p s

-- The bytes that no URL and no flag may have.
abbrev quote_or_space : ℕ → Bool
quote_or_space c = c == b'"' || c == b'\'' || c == b'\n' || c == b'\r' || c == b' ' || c == b'\t'

abbrev quote_byte : ℕ → Bool
quote_byte c = c == b'"' || c == b'\''

pub data EntryError : Type 0 where
  line_break bad_fields bad_schedule empty_url bad_url bad_scheme bad_flag : EntryError

abbrev schedule_errors : List Str → Result (List EntryError)
schedule_errors fs =
    if not (length fs == 5) then done (bad_fields ∷ []) else elim (parse_schedule fs) [
      | done _ ↦ done []
      | fail _ ↦ done (bad_schedule ∷ [])
      | panic ↦ panic
      | out_of_fuel ↦ out_of_fuel
    ]

abbrev url_errors : Str → List EntryError
url_errors u =
    if is_empty u
    then empty_url ∷ []
    else if contains_byte quote_or_space u
    then bad_url ∷ []
    else if not (has_prefix (codes "http://") u)
        && not (has_prefix (codes "https://") u)
        && not (has_prefix (codes "/") u)
    then bad_scheme ∷ []
    else []

abbrev flag_errors : List Str → List EntryError
flag_errors [] = []
flag_errors (p ∷ ps) =
    let rest = flag_errors ps in
    if not (has_prefix (codes "-") p) || contains_byte quote_byte p then bad_flag ∷ rest else rest

-- One turn of the loop of `ValidateCrontabEntries`.
unfoldable pub validate_entry : Entry → Result (List EntryError)
unfolding fields_from trim_space parse_schedule
validate_entry (text n raw) =
    done (if contains_byte (λ c. c == b'\n' || c == b'\r') raw then line_break ∷ [] else [])
validate_entry (job n j disabled indent) = schedule_errors (fields (trim_space j.spec)) >>= λ errs.
    done (errs ++ (url_errors (trim_space j.url) ++ flag_errors (fields (trim_space j.flags))))

-- `ValidateCrontabEntries`
unfoldable pub validate_entries : List Entry → Result (List EntryError)
unfolding validate_entry
validate_entries [] = done []
validate_entries (e ∷ es) = validate_entry e >>= λ a. validate_entries es >>= λ b. done (a ++ b)

abbrev pub count_jobs : List Entry → ℕ
count_jobs [] = 0
count_jobs (text n raw ∷ es) = count_jobs es
count_jobs (job n j d i ∷ es) = suc (count_jobs es)

abbrev pub drop_cr : Str → Str
drop_cr [] = []
drop_cr (c ∷ []) = if c == b'\r' then [] else c ∷ []
drop_cr (c ∷ d ∷ s) = c ∷ drop_cr (d ∷ s)

-- `bufio.ScanLines`: the lines of a text, each without its line break; `acc` is the line so far.
unfoldable pub scan_lines : Str → Str → List Str
scan_lines acc [] = if is_empty acc then [] else drop_cr acc ∷ []
scan_lines acc (c ∷ s) =
    let rest = scan_lines (if c == b'\n' then [] else acc ++ c ∷ []) s in
    if c == b'\n' then drop_cr acc ∷ rest else rest

-- What `WriteCrontabEntries` does before it touches the disk.
pub data Write : Type 0 where
  refused : List EntryError → Write
  would_lose_jobs : Write
  written : Str → Write

abbrev pub write_checked : List Entry → List Entry → Str → Write
write_checked entries back body =
    if count_jobs back == count_jobs entries then written body else would_lose_jobs

abbrev pub write_valid : List Entry → List EntryError → Result Write
write_valid entries [] = parse_entries 1 (scan_lines [] (render_entries entries)) >>= λ back.
    done (write_checked entries back.0 (render_entries entries))
write_valid entries (e ∷ es) = done (refused (e ∷ es))

unfoldable pub write_entries : List Entry → Result Write
unfolding validate_entries render_entries parse_entries scan_lines
write_entries entries = validate_entries entries >>= λ errs. write_valid entries errs
