-- ===== src/Cron/Agree.antt =====
-- background: the scheduler and the crontab's editor read one file alike.
use jacred_go.Base.{
  ℕ, ◌+◌, ◌≡◌, refl, Bool, true, false, List, [], ◌∷◌, Option, none, some, Str, ◌==◌, if◌then◌else◌,
  map, Bool-cases, inl, inr, arith,
}
use jacred_go.Base.Trim.{trim_space}
use jacred_go.Cron.Field.{
  Result, done, fail, panic, out_of_fuel, ◌>>=◌, >>=-eq-done, done-injective,
}
use jacred_go.Cron.Schedule.{Schedule, parse_schedule}
use jacred_go.Cron.JobLine.{
  JobMatch, Job, match_job_line, parse_job_line, if_parses, job_of, job_if_match, word, span,
}
use jacred_go.Cron.Crontab.{Entry, text, job, entry_of, body_entry, parse_line, parse_entries}
use jacred_go.Cron.Scheduler.{
  ScheduledJob, Warning, not_a_job, bad_schedule, Loaded, with_schedule, with_line, body_job,
  parse_crontab,
}

-- Where a job stands and what it fetches.
abbrev pub Target : Type 0
Target = ℕ × Str

abbrev pub target : ScheduledJob → Target
target j = (j.line, j.url)

abbrev pub enabled_or : Entry → List Target → List Target
enabled_or (text n raw) ts = ts
enabled_or (job n j true indent) ts = ts
enabled_or (job n j false indent) ts = (n, j.url) ∷ ts

-- The entries' jobs that are not commented out.
abbrev pub enabled : List Entry → List Target
enabled [] = []
enabled (e ∷ es) = enabled_or e (enabled es)

abbrev pub warning_line : Warning → ℕ
warning_line (not_a_job n) = n
warning_line (bad_schedule n) = n

-- What one line adds to the jobs and to the warnings, on either side.
abbrev Adds : ℕ → Loaded → Loaded → Entry × Bool → Type 0
Adds n r out e =
    (map target out.0 ≡ enabled_or e.0 (map target r.0))
    × (map warning_line out.1 ≡ (if e.1 then n ∷ map warning_line r.1 else map warning_line r.1))

schedule-Adds :
    (n : ℕ) (raw : Str) (c : ℕ) (s : Str) (m : JobMatch) (sch : Result Schedule) (r out : Loaded)
    (e : Entry × Bool)
    → with_schedule n m sch r ≡ done out
    → (if_parses (job_of (c ∷ s) m) sch >>= λ j. done (entry_of n raw (c ∷ s) (c ∷ s, false) j))
      ≡ done e
    → Adds n r out e
schedule-Adds n raw c s m (done sch) r out e h k =
    rw (← (done-injective _ _ h), ← (done-injective _ _ k)) (refl, refl)
schedule-Adds n raw c s m (fail err) r out e h k =
    rw (← (done-injective _ _ h), ← (done-injective _ _ k)) (refl, refl)
schedule-Adds n raw c s m panic r out e h k = cc
schedule-Adds n raw c s m out_of_fuel r out e h k = cc

match-Adds :
    (n : ℕ) (raw : Str) (c : ℕ) (s : Str) (m : Option JobMatch) (r out : Loaded) (e : Entry × Bool)
    → with_line n m r ≡ done out
    → (job_if_match (c ∷ s) m >>= λ j. done (entry_of n raw (c ∷ s) (c ∷ s, false) j)) ≡ done e
    → Adds n r out e
match-Adds n raw c s none r out e h k =
    rw (← (done-injective _ _ h), ← (done-injective _ _ k)) (refl, refl)
match-Adds n raw c s (some m) r out e h k =
    schedule-Adds n raw c s m (parse_schedule m.fields) r out e h k

-- A comment adds nothing.
comment-Adds :
    (n : ℕ) (raw body s : Str) (r out : Loaded) (e : Entry × Bool) (j : Option Job)
    → done r ≡ done out
    → done (entry_of n raw body (s, true) j) ≡ done e
    → Adds n r out e
comment-Adds n raw body s r out e none h k =
    rw (← (done-injective _ _ h), ← (done-injective _ _ k)) (refl, refl)
comment-Adds n raw body s r out e (some j) h k =
    rw (← (done-injective _ _ h), ← (done-injective _ _ k)) (refl, refl)

line-Adds :
    (n : ℕ) (raw body : Str) (r out : Loaded) (e : Entry × Bool)
    → body_job n body r ≡ done out
    → body_entry n raw body ≡ done e
    → Adds n r out e
unfolding parse_job_line match_job_line word span
line-Adds n raw [] r out e h k =
    rw (← (done-injective _ _ h), ← (done-injective _ _ k)) (refl, refl)
line-Adds n raw (c ∷ s) r out e h k = elim (Bool-cases (c == b'#')) [
  | inl y ↦
      let y2 : (b'#' == c) ≡ true = ground arith in
      let (j, _, g) = >>=-eq-done (parse_job_line (trim_space s)) _ (rw y at k) in
      comment-Adds n raw (c ∷ s) (trim_space s) r out e j (rw y2 at h) g
  | inr d ↦
      let d2 : (b'#' == c) ≡ false = ground arith in
      match-Adds n raw c s (match_job_line (c ∷ s)) r out e (rw d2 at h) (rw d at k)
]

-- When both the scheduler and the editor read the lines of a file through, they agree: the
-- scheduler's jobs are the editor's jobs that are not commented out, by line and address and in
-- order, and the scheduler warns of the lines that the editor warns of.
pub parse_crontab-parse_entries :
    (n : ℕ) (lines : List Str) (l : Loaded) (r : List Entry × List ℕ)
    → parse_crontab n lines ≡ done l
    → parse_entries n lines ≡ done r
    → (map target l.0 ≡ enabled r.0) × (map warning_line l.1 ≡ r.1)
unfolding parse_crontab parse_entries parse_line
parse_crontab-parse_entries n [] l r h k =
    rw (← (done-injective _ _ h), ← (done-injective _ _ k)) (refl, refl)
parse_crontab-parse_entries n (raw ∷ rest) l r h k =
    let (l2, e2, h2) = >>=-eq-done (parse_crontab (n + 1) rest) _ h in
    let (e, ee, k1) = >>=-eq-done (body_entry n raw (trim_space raw)) _ k in
    let (r2, e3, k2) = >>=-eq-done (parse_entries (n + 1) rest) _ k1 in
    let (i, w) = parse_crontab-parse_entries (n + 1) rest l2 r2 e2 e3 in
    let (a, b) = line-Adds n raw (trim_space raw) l2 l e h2 ee in
    rw (← (done-injective _ _ k2), ← i, ← w) (a, b)
