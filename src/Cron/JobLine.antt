-- ===== src/Cron/JobLine.antt =====
-- background/scheduler.go: `jobLineRe`; background/crontabfile.go: `parseJobLine`.
-- The pattern is `^(\S+)\s+(\S+)\s+(\S+)\s+(\S+)\s+(\S+)\s+curl\s+((?:-[a-zA-Z]+\s+)*)["']([^"']+)["']\s*$`.
-- Each of its repeats stops where the next item begins, so the greedy walk below finds its only match.
use jacred_go.Base.{
  ℕ, zero, suc, ◌+◌, Bool, true, false, not, ◌&&◌, ◌||◌, List, [], ◌∷◌, ◌++◌, Option, none, some,
  Str, codes, equal, leb, ◌==◌, if◌then◌else◌, length, take, drop,
}
use jacred_go.Base.Trim.{trim_space, is_empty}
use jacred_go.Cron.Field.{Result, done, fail, panic, out_of_fuel}
use jacred_go.Cron.Schedule.{Schedule, parse_schedule}

-- `\s`
abbrev pub re_space : ℕ → Bool
re_space c = c == 9 || c == 10 || c == 12 || c == 13 || c == 32

-- The longest prefix whose bytes pass a test, and the rest.
unfoldable pub span : (ℕ → Bool) → Str → Str × Str
span p [] = ([], [])
span p (c ∷ s) = let (a, b) = span p s in if p c then (c ∷ a, b) else ([], c ∷ s)

abbrev non_empty : Str × Str → Option (Str × Str)
non_empty ([], s) = none
non_empty (c ∷ w, s) = some (c ∷ w, s)

infixl 5 ◌>>=?◌
abbrev pub ◌>>=?◌ {ℓ κ} : {A : Type ℓ} {B : Type κ} → Option A → (A → Option B) → Option B
none >>=? f = none
some a >>=? f = f a

-- `\s+`
abbrev spaces : Str → Option Str
spaces s = non_empty (span re_space s) >>=? λ p. some p.1

-- `(\S+)\s+`
unfoldable pub word : Str → Option (Str × Str)
unfolding span
word s = non_empty (span (λ c. not (re_space c)) s) >>=? λ p. spaces p.1 >>=? λ r. some (p.0, r)

abbrev pub is_letter : ℕ → Bool
is_letter c = leb b'a' c && leb c b'z' || leb b'A' c && leb c b'Z'

-- `-[a-zA-Z]+\s+`: the flag with its spaces, and the rest.
unfoldable pub flag : Str → Option (Str × Str)
unfolding span
flag [] = none
flag (c ∷ s) =
    if c == b'-'
    then (non_empty (span is_letter s) >>=? λ l.
        non_empty (span re_space l.1) >>=? λ p. some (c ∷ (l.0 ++ p.0), p.1))
    else none

-- `((?:-[a-zA-Z]+\s+)*)`; each turn reads a byte, so the length of the text is enough fuel.
unfoldable pub flags_from : ℕ → Str → Str × Str
unfolding flag
flags_from zero s = ([], s)
flags_from (suc f) s = elim (flag s) [
  | none ↦ ([], s)
  | some (a, rest) ↦ let (b, end) = flags_from f rest in (a ++ b, end)
]

abbrev pub is_quote : ℕ → Bool
is_quote c = c == b'"' || c == b'\''

abbrev all_spaces : Str → Bool
all_spaces [] = true
all_spaces (c ∷ s) = re_space c && all_spaces s

-- `["']([^"']+)["']\s*$`
unfoldable pub quoted : Str → Option Str
unfolding span
quoted [] = none
quoted (c ∷ s) =
    if is_quote c
    then (non_empty (span (λ d. not (is_quote d)) s) >>=? λ p. elim p.1 [
      | [] ↦ none
      | q ∷ rest ↦ (if all_spaces rest then some p.0 else none)
    ])
    else none

pub record JobMatch : Type 0 where
  pub fields : List Str
  pub flags : Str
  pub url : Str

abbrev pub behind_curl : List Str → Str → Option JobMatch
behind_curl fields s =
    let (flags, rest) = flags_from (length s) s in
    quoted rest >>=? λ url. some (record { fields = fields; flags = flags; url = url })

-- `jobLineRe.FindStringSubmatch`
unfoldable pub match_job_line : Str → Option JobMatch
unfolding word flags_from quoted
match_job_line s = word s >>=? λ a. word a.1 >>=? λ b. word b.1 >>=? λ c. word c.1 >>=? λ d.
    word d.1 >>=? λ e. word e.1 >>=? λ w.
    if equal w.0 (codes "curl") then behind_curl (a.0 ∷ b.0 ∷ c.0 ∷ d.0 ∷ e.0 ∷ []) w.1 else none

abbrev pub has_prefix : Str → Str → Bool
has_prefix [] s = true
has_prefix (p ∷ ps) [] = false
has_prefix (p ∷ ps) (c ∷ s) = p == c && has_prefix ps s

-- `strings.Index`
unfoldable pub index_of : Str → Str → Option ℕ
index_of p [] = if is_empty p then some 0 else none
index_of p (c ∷ s) =
    let later = index_of p s in
    if has_prefix p (c ∷ s) then some 0 else elim later [ none ↦ none | some i ↦ some (i + 1) ]

abbrev pub blank_or_tab : ℕ → Bool
blank_or_tab c = c == b' ' || c == b'\t'

-- `strings.TrimRight(s, " \t")`
unfoldable pub trim_right_blank : Str → Str
trim_right_blank [] = []
trim_right_blank (c ∷ s) =
    let rest = trim_right_blank s in if is_empty rest && blank_or_tab c then [] else c ∷ rest

-- `strings.TrimLeft(s, " \t")`, and what it takes off: `leadingSpace`.
unfoldable pub trim_left_blank : Str → Str
unfolding span
trim_left_blank s = (span blank_or_tab s).1

unfoldable pub leading_space : Str → Str
unfolding span
leading_space s = (span blank_or_tab s).0

-- The parts of a job's line.
pub record Job : Type 0 where
  pub spec : Str
  pub url : Str
  pub flags : Str
  pub gap : Str

-- `strings.Join(m[1:6], " ")`
abbrev pub join_blank : List Str → Str
join_blank [] = []
join_blank (w ∷ []) = w
join_blank (w ∷ v ∷ ws) = w ++ (b' ' ∷ join_blank (v ∷ ws))

-- The schedule as it is written, and what stands between it and "curl".
abbrev pub spec_and_gap : Str → List Str → Option ℕ → Str × Str
spec_and_gap s fields none = (join_blank fields, codes "    ")
spec_and_gap s fields (some zero) = (join_blank fields, codes "    ")
spec_and_gap s fields (some (suc i)) =
    let head = take (suc i) s in let spec = trim_right_blank head in (spec, drop (length spec) head)

abbrev pub job_of : Str → JobMatch → Job
job_of s m =
    let (spec, gap) = spec_and_gap s m.fields (index_of (codes "curl") s) in
    record { spec = spec; url = m.url; flags = trim_space m.flags; gap = gap }

-- `parseJobLine`: no job where the schedule does not parse.
abbrev pub if_parses : Job → Result Schedule → Result (Option Job)
if_parses j (done s) = done (some j)
if_parses j (fail e) = done none
if_parses j panic = panic
if_parses j out_of_fuel = out_of_fuel

abbrev pub job_if_match : Str → Option JobMatch → Result (Option Job)
job_if_match s none = done none
job_if_match s (some m) = if_parses (job_of s m) (parse_schedule m.fields)

unfoldable pub parse_job_line : Str → Result (Option Job)
unfolding match_job_line parse_schedule trim_right_blank index_of trim_space
parse_job_line s = job_if_match s (match_job_line s)
