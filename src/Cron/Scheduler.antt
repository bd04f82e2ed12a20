-- ===== src/Cron/Scheduler.antt =====
-- background/scheduler.go: `parseCrontab`, `tick`, `fire` and `reload`.
use jacred_go.Base.{
  ℕ, ◌+◌, Bool, true, false, not, ◌&&◌, ◌||◌, List, [], ◌∷◌, ◌++◌, Option, none, some, Str, codes,
  equal, ◌==◌, if◌then◌else◌, map,
}
use jacred_go.Base.Trim.{trim_space, is_empty}
use jacred_go.Cron.Field.{Result, done, fail, panic, out_of_fuel, ◌>>=◌}
use jacred_go.Cron.Schedule.{Schedule, parse_schedule, Clock, matches}
use jacred_go.Cron.JobLine.{JobMatch, match_job_line, join_blank, has_prefix}

pub record ScheduledJob : Type 0 where
  pub line : ℕ
  pub spec : Str
  pub url : Str
  pub schedule : Schedule
  pub running : Bool
  pub runs : ℕ
  pub skips : ℕ

-- Lines that are no job, and lines whose schedule does not parse.
pub data Warning : Type 0 where
  not_a_job bad_schedule : ℕ → Warning

abbrev loaded_job : ℕ → JobMatch → Schedule → ScheduledJob
loaded_job n m s = record {
  line = n;
  spec = join_blank m.fields;
  url = m.url;
  schedule = s;
  running = false;
  runs = 0;
  skips = 0;
}

abbrev pub Loaded : Type 0
Loaded = List ScheduledJob × List Warning

-- A line that matches the job pattern, before the lines behind it.
abbrev pub with_schedule : ℕ → JobMatch → Result Schedule → Loaded → Result Loaded
with_schedule n m (done s) r = done (loaded_job n m s ∷ r.0, r.1)
with_schedule n m (fail e) r = done (r.0, bad_schedule n ∷ r.1)
with_schedule n m panic r = panic
with_schedule n m out_of_fuel r = out_of_fuel

abbrev pub with_line : ℕ → Option JobMatch → Loaded → Result Loaded
with_line n none r = done (r.0, not_a_job n ∷ r.1)
with_line n (some m) r = with_schedule n m (parse_schedule m.fields) r

-- One turn of the loop of `parseCrontab`, before the lines behind it.
abbrev pub body_job : ℕ → Str → Loaded → Result Loaded
body_job n line r =
    if is_empty line || has_prefix (codes "#") line
    then done r
    else with_line n (match_job_line line) r

-- `parseCrontab`, from line `n` on.
unfoldable pub parse_crontab : ℕ → List Str → Result Loaded
unfolding match_job_line parse_schedule trim_space
parse_crontab n [] = done ([], [])
parse_crontab n (raw ∷ rest) = parse_crontab (n + 1) rest >>= λ r. body_job n (trim_space raw) r

-- What `tick` does with one job: the job behind it, and whether it is fired.
unfoldable pub tick_job : Clock → ScheduledJob → ScheduledJob × Bool
tick_job now j =
    if not (matches j.schedule now)
    then (j, false)
    else if j.running
    then (record j { skips = j.skips + 1 }, false)
    else (record j { running = true }, true)

-- `tick`: the jobs behind it, and those that it fires, in order.
unfoldable pub tick : Clock → List ScheduledJob → List ScheduledJob × List ScheduledJob
unfolding tick_job
tick now [] = ([], [])
tick now (j ∷ js) =
    let (j', fired) = tick_job now j in
    let (js', started) = tick now js in (j' ∷ js', if fired then j' ∷ started else started)

-- What the request of `fire` comes to.
pub data Answer : Type 0 where
  bad_request send_failed cancelled : Answer
  answered : ℕ → Answer

-- The request's address: a path is taken at the process's own address.
abbrev pub fire_url : Str → Str → Str
fire_url base_url url = if has_prefix (codes "/") url then base_url ++ url else url

-- `fire` with the `defer` around it: only an answer counts as a run, and the guard is let go.
unfoldable pub fire : Answer → ScheduledJob → ScheduledJob
fire (answered status) j = record j { runs = j.runs + 1; running = false }
fire _ j = record j { running = false }

-- The file's stamp, and what reading it gives.
pub record Scheduler : Type 0 where
  pub jobs : List ScheduledJob
  pub loaded : Bool
  pub last_mod : ℕ
  pub last_size : ℕ

-- `prev[j.spec+" "+j.url]`; of two jobs with one key the later counts.
abbrev pub job_key : ScheduledJob → Str
job_key j = j.spec ++ (b' ' ∷ j.url)

abbrev pub was_running : List ScheduledJob → Str → Bool → Bool
was_running [] key found = found
was_running (j ∷ js) key found =
    was_running js key (if equal (job_key j) key then j.running else found)

abbrev pub carry : List ScheduledJob → ScheduledJob → ScheduledJob
carry old j = if was_running old (job_key j) false then record j { running = true } else j

-- `os.Stat` and `os.Open` of the file.
pub data Stat : Type 0 where
  missing : Stat
  found : (modified size : ℕ) → (lines : Option (List Str)) → Stat

pub data Reload : Type 0 where
  unchanged reloaded : Scheduler → Reload
  failed : Reload

abbrev pub accept : Scheduler → ℕ → ℕ → Loaded → Reload
accept s modified size ([], warnings) = failed
accept s modified size (j ∷ js, warnings) = reloaded (record {
  jobs = map (carry s.jobs) (j ∷ js);
  loaded = true;
  last_mod = modified;
  last_size = size;
})

-- `reload`. On an error the scheduler stays as it is.
unfoldable pub reload : Scheduler → Stat → Result Reload
unfolding parse_crontab
reload s missing = done failed
reload s (found modified size lines) =
    if modified == s.last_mod && size == s.last_size && s.loaded
    then done (unchanged s)
    else elim lines [
      | none ↦ done failed
      | some ls ↦ parse_crontab 1 ls >>= λ l. done (accept s modified size l)
    ]
