-- ===== src/Cron/Reload.antt =====
-- background/scheduler.go: what a reload of the file keeps.
use jacred_go.Base.{
  ℕ, ◌+◌, ◌≡◌, refl, true, false, ◌&&◌, ◌||◌, List, [], ◌∷◌, Option, none, some, Str, codes, map,
  Bool-cases, inl, inr, All, Bool, not, equal, equal_iff, ◌∙◌, ap, ◌==◌, arith,
}
use jacred_go.Base.Trim.{trim_space, is_empty}
use jacred_go.Cron.Field.{Result, done, fail, panic, out_of_fuel, >>=-eq-done, done-injective}
use jacred_go.Cron.Schedule.{Schedule, Clock, matches, parse_schedule}
use jacred_go.Cron.JobLine.{JobMatch, match_job_line, has_prefix}
use jacred_go.Cron.Scheduler.{
  ScheduledJob, Loaded, tick_job, with_schedule, with_line, body_job, parse_crontab, Scheduler,
  Stat, missing, found, unchanged, reloaded, failed, was_running, job_key, carry, reload, accept,
}

abbrev IsIdle : ScheduledJob → Type 0
IsIdle j = j.running ≡ false

schedule-IsIdle :
    (n : ℕ) (m : JobMatch) (sch : Result Schedule) (r out : Loaded)
    → with_schedule n m sch r ≡ done out
    → All IsIdle r.0
    → All IsIdle out.0
schedule-IsIdle n m (done s) r out h i = rw (← (done-injective _ _ h)) (refl, i)
schedule-IsIdle n m (fail err) r out h i = rw (← (done-injective _ _ h)) i
schedule-IsIdle n m panic r out h i = cc
schedule-IsIdle n m out_of_fuel r out h i = cc

match-IsIdle :
    (n : ℕ) (m : Option JobMatch) (r out : Loaded)
    → with_line n m r ≡ done out
    → All IsIdle r.0
    → All IsIdle out.0
match-IsIdle n none r out h i = rw (← (done-injective _ _ h)) i
match-IsIdle n (some m) r out h i = schedule-IsIdle n m (parse_schedule m.fields) r out h i

body-IsIdle :
    (n : ℕ) (line : Str) (r out : Loaded)
    → body_job n line r ≡ done out
    → All IsIdle r.0
    → All IsIdle out.0
body-IsIdle n line r out h i = elim (Bool-cases (is_empty line || has_prefix (codes "#") line)) [
  | inl y ↦ rw (← (done-injective _ _ (rw y at h))) i
  | inr k ↦ match-IsIdle n (match_job_line line) r out (rw k at h) i
]

-- A file's jobs come idle.
parse_crontab-IsIdle :
    (n : ℕ) (lines : List Str) (l : Loaded) → parse_crontab n lines ≡ done l → All IsIdle l.0
unfolding parse_crontab
parse_crontab-IsIdle n [] l h = rw (← (done-injective _ _ h)) tt
parse_crontab-IsIdle n (raw ∷ rest) l h =
    let (l2, e, g) = >>=-eq-done (parse_crontab (n + 1) rest) _ h in
    body-IsIdle n (trim_space raw) l2 l g (parse_crontab-IsIdle (n + 1) rest l2 e)

-- The guard of a job is the one that its key had.
abbrev CarriesGuard : List ScheduledJob → ScheduledJob → Type 0
CarriesGuard old j = j.running ≡ was_running old (job_key j) false

carry-CarriesGuard :
    (old : List ScheduledJob) (j : ScheduledJob) → IsIdle j → CarriesGuard old (carry old j)
carry-CarriesGuard old j i = elim (Bool-cases (was_running old (job_key j) false)) [
  | inl y ↦ rw y (rw y refl)
  | inr n ↦ rw n (rw n i)
]

map-carry :
    (old js : List ScheduledJob) → All IsIdle js → All (CarriesGuard old) (map (carry old) js)
map-carry old [] h = tt
map-carry old (j ∷ js) h = (carry-CarriesGuard old j h.0, map-carry old js h.1)

accept-Carries :
    (s t : Scheduler) (modified size : ℕ) (lines : Option (List Str)) (l : Loaded)
    → accept s modified size l ≡ reloaded t
    → All IsIdle l.0
    → All (CarriesGuard s.jobs) t.jobs × (reload t (found modified size lines) ≡ done (unchanged t))
unfolding reload
accept-Carries s t modified size lines ([], ws) h i = cc
accept-Carries s t modified size lines (j ∷ js, ws) h i =
    rw (← (reloaded-injective h)) (map-carry s.jobs (j ∷ js) i, rw (same modified, same size) refl)
  where
    reloaded-injective : {a b : Scheduler} → reloaded a ≡ reloaded b → a ≡ b
    reloaded-injective h = cc

    same : (n : ℕ) → (n == n) ≡ true
    same n = ground arith

read-Carries :
    (s t : Scheduler) (modified size : ℕ) (lines : Option (List Str))
    → (modified == s.last_mod && size == s.last_size && s.loaded) ≡ false
    → reload s (found modified size lines) ≡ done (reloaded t)
    → All (CarriesGuard s.jobs) t.jobs × (reload t (found modified size lines) ≡ done (unchanged t))
unfolding reload
read-Carries s t modified size none n h = unread (rw n at h)
  where
    unread : {P : Type 0} → done failed ≡ done (reloaded t) → P
    unread h = cc
read-Carries s t modified size (some ls) n h =
    let (l, e, g) = >>=-eq-done (parse_crontab 1 ls) _ (rw n at h) in
    accept-Carries s t modified size (some ls) l (done-injective _ _ g)
      (parse_crontab-IsIdle 1 ls l e)

-- Whether some job with a key has a request under way.
abbrev pub any_running : List ScheduledJob → Str → Bool
any_running [] key = false
any_running (j ∷ js) key = equal (job_key j) key && j.running || any_running js key

abbrev pub HasDistinctKeys : List ScheduledJob → Type 0
HasDistinctKeys [] = Unit
HasDistinctKeys (j ∷ js) = All (λ o. equal (job_key o) (job_key j) ≡ false) js × HasDistinctKeys js

was_running-absent :
    (js : List ScheduledJob) (key : Str) (acc : Bool)
    → All (λ o. equal (job_key o) key ≡ false) js
    → was_running js key acc ≡ acc
was_running-absent [] key acc h = refl
was_running-absent (j ∷ js) key acc h = rw (h.0) (was_running-absent js key acc h.1)

any_running-absent :
    (js : List ScheduledJob) (key : Str)
    → All (λ o. equal (job_key o) key ≡ false) js
    → any_running js key ≡ false
any_running-absent [] key h = refl
any_running-absent (j ∷ js) key h = rw (h.0) (any_running-absent js key h.1)

was_running-any_running :
    (js : List ScheduledJob) (key : Str)
    → HasDistinctKeys js
    → was_running js key false ≡ any_running js key
was_running-any_running [] key d = refl
was_running-any_running (j ∷ js) key d = elim (Bool-cases (equal (job_key j) key)) [
  | inl y ↦ only y (rw ((equal_iff (job_key j) key).0 y) at d.0)
  | inr n ↦ rw n (was_running-any_running js key d.1)
]
  where
    only :
        equal (job_key j) key ≡ true
        → All (λ o. equal (job_key o) key ≡ false) js
        → was_running (j ∷ js) key false ≡ any_running (j ∷ js) key
    only y absent =
        rw (y, was_running-absent js key j.running absent, any_running-absent js key absent)
          (ground arith)

-- The guard of a job is set if a job of its key has a request under way, and a tick then starts it only
-- if there is none.
pub record KeepsGuard (old : List ScheduledJob) (j : ScheduledJob) : Type 0 where
  pub guard : j.running ≡ any_running old (job_key j)
  pub starts :
      (now : Clock)
      → (tick_job now j).1 ≡ (matches j.schedule now && not (any_running old (job_key j)))

tick_job-starts :
    (now : Clock) (j : ScheduledJob)
    → (tick_job now j).1 ≡ (matches j.schedule now && not j.running)
unfolding tick_job
tick_job-starts now j = elim (Bool-cases (matches j.schedule now)) [
  | inl m ↦ elim (Bool-cases j.running) [ inl r ↦ rw (m, r) refl | inr i ↦ rw (m, i) refl ]
  | inr n ↦ rw n refl
]

CarriesGuard-KeepsGuard :
    (old : List ScheduledJob) (j : ScheduledJob)
    → HasDistinctKeys old
    → CarriesGuard old j
    → KeepsGuard old j
CarriesGuard-KeepsGuard old j d h = record {
  guard = h ∙ was_running-any_running old (job_key j) d;
  starts = λ now.
      tick_job-starts now j
      ∙ ap (λ b. matches j.schedule now && not b) (h ∙ was_running-any_running old (job_key j) d);
}

jobs-KeepsGuard :
    (old js : List ScheduledJob)
    → HasDistinctKeys old
    → All (CarriesGuard old) js
    → All (KeepsGuard old) js
jobs-KeepsGuard old [] d h = tt
jobs-KeepsGuard old (j ∷ js) d h =
    (CarriesGuard-KeepsGuard old j d h.0, jobs-KeepsGuard old js d h.1)

accepted-Carries :
    (s t : Scheduler) (stat : Stat)
    → reload s stat ≡ done (reloaded t)
    → All (CarriesGuard s.jobs) t.jobs × (reload t stat ≡ done (unchanged t))
unfolding reload
accepted-Carries s t missing h = cc
accepted-Carries s t (found modified size lines) h =
    elim (Bool-cases (modified == s.last_mod && size == s.last_size && s.loaded)) [
      | inl y ↦ same_stamp (rw y at h)
      | inr n ↦ read-Carries s t modified size lines n h
    ]
  where
    same_stamp : {P : Type 0} → done (unchanged s) ≡ done (reloaded t) → P
    same_stamp h = cc

-- Where no two jobs of the scheduler have the same schedule text and address, a reload that takes a file in
-- gives every job of the file the guard set exactly if some job with its schedule text and address has a
-- request under way; a tick after it starts a job exactly if its time matches and no such request is under
-- way; and the next reload of a file with the same stamp and size does not read it again.
pub reload-Carries :
    (s t : Scheduler) (stat : Stat)
    → HasDistinctKeys s.jobs
    → reload s stat ≡ done (reloaded t)
    → All (KeepsGuard s.jobs) t.jobs × (reload t stat ≡ done (unchanged t))
reload-Carries s t stat d h =
    let (guards, again) = accepted-Carries s t stat h in
    (jobs-KeepsGuard s.jobs t.jobs d guards, again)
