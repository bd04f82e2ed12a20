-- ===== src/Cron/Tests.antt =====
-- background/scheduler.go and background/crontabfile.go on small files.
use jacred_go.Base.{
  ℕ, ◌≡◌, ◌≢◌, refl, true, false, not, ◌&&◌, List, [], ◌∷◌, some, Str, codes, map, keep, All,
  ltb→lt, leb→le,
}
use jacred_go.Base.Trim.{trim_space, trim_left, trim_right}
use jacred_go.Base.Split.{split_at}
use jacred_go.Cron.Field.{
  Result, done, out_of_fuel, Element, fill_field, mark, cut, fill_parts, parse_part, take_step,
  ends_of,
}
use jacred_go.Cron.Schedule.{Schedule, blank, parse_schedule, Clock, matches, next_run}
use jacred_go.Cron.Elements.{Fills, fill_field-Fills}
use jacred_go.Cron.Rule.{
  IsClock, cron_rule, parse_schedule-cron_rule, NextRun, next_run-NextRun,
  parse_schedule-ne-out_of_fuel,
}
use jacred_go.Cron.Crontab.{Entry, parse_entries}
use jacred_go.Cron.Scheduler.{
  ScheduledJob, Loaded, parse_crontab, tick, Scheduler, Stat, found, Reload, reloaded, unchanged,
  reload,
}
use jacred_go.Cron.Flights.{
  started, tick_starts, tick_flight, ticks, Reach, here, next, IsGuarded, idle, Reach-IsGuarded,
}
use jacred_go.Cron.Agree.{target, enabled, warning_line, parse_crontab-parse_entries}
use jacred_go.Cron.Reload.{KeepsGuard, HasDistinctKeys, reload-Carries}
use jacred_go.Cron.Written.{Covers, parse_entries-Covers}

abbrev value_or {ℓ} : {A : Type ℓ} → A → Result A → A
value_or d (done a) = a
value_or d _ = d

abbrev empty_schedule : Schedule
empty_schedule = record {
  minute = [];
  hour = [];
  dom = [];
  month = [];
  dow = [];
  dom_restricted = false;
  dow_restricted = false;
}

abbrev hourly : List Str
hourly = codes "30" ∷ codes "*/6" ∷ codes "1,15" ∷ codes "*" ∷ codes "1-5" ∷ []

abbrev hourly_schedule : Schedule
unfolding parse_schedule
hourly_schedule = value_or empty_schedule (parse_schedule hourly)

abbrev noon : Clock
noon = record { minute = 30; hour = 12; day = 3; month = 4; weekday = 2 }

noon-IsClock : IsClock noon
noon-IsClock = record {
  minute_in = ltb→lt 30 60 refl;
  hour_in = ltb→lt 12 24 refl;
  day_in = (leb→le 1 3 refl, leb→le 3 31 refl);
  month_in = (leb→le 1 4 refl, leb→le 4 12 refl);
  weekday_in = ltb→lt 2 7 refl;
}

hourly_parses : parse_schedule hourly ≡ done hourly_schedule
unfolding parse_schedule fill_field fill_parts split_at parse_part take_step ends_of cut mark
    trim_space trim_left trim_right
hourly_parses = refl

parse_schedule-cron_rule_example :
    matches hourly_schedule noon
    ≡ cron_rule (codes "30") (codes "*/6") (codes "1,15") (codes "*") (codes "1-5") noon
parse_schedule-cron_rule_example =
    parse_schedule-cron_rule (codes "30") (codes "*/6") (codes "1,15") (codes "*") (codes "1-5")
      hourly_schedule noon hourly_parses noon-IsClock

next_run-NextRun_example :
    NextRun (λ m. noon) 5 (parse_schedule hourly) (next_run (λ m. noon) hourly 5)
next_run-NextRun_example = next_run-NextRun (λ m. noon) hourly 5

parse_schedule-ne-out_of_fuel_example : parse_schedule hourly ≢ out_of_fuel
parse_schedule-ne-out_of_fuel_example = parse_schedule-ne-out_of_fuel hourly

fill_field-Fills_example :
    Fills 1 (blank 31) (split_at b',' (codes "1,15")) (fill_field 1 (codes "1,15") (blank 31))
fill_field-Fills_example = fill_field-Fills 1 (codes "1,15") (blank 31)

abbrev huge_step : Element
huge_step = record { lo = 5; hi = 9; step = 9223372036854775807 }

abbrev job_a : ScheduledJob
job_a = record {
  line = 1;
  spec = codes "30 */6 1,15 * 1-5";
  url = codes "/a";
  schedule = hourly_schedule;
  running = true;
  runs = 0;
  skips = 0;
}

abbrev jobs : List ScheduledJob
jobs = job_a ∷ record job_a { running = false } ∷ []

tick_starts_example :
    (tick noon jobs).1 ≡ map started (keep (λ j. matches j.schedule noon && not j.running) jobs)
tick_starts_example = tick_starts noon jobs

after_tick : Reach (map idle jobs) (map (tick_flight noon) (map idle jobs))
after_tick = next here (ticks noon (map idle jobs))

Reach-IsGuarded_example : All IsGuarded (map (tick_flight noon) (map idle jobs))
Reach-IsGuarded_example = Reach-IsGuarded jobs after_tick

abbrev lines : List Str
lines =
    codes "0 1 * * * curl -s \"/a\""
    ∷ codes "# note"
    ∷ codes "# 0 2 * * * curl \"/b\""
    ∷ codes "oops"
    ∷ []

abbrev file_loaded : Loaded
unfolding parse_crontab
file_loaded = value_or ([], []) (parse_crontab 1 lines)

abbrev file_entries : List Entry × List ℕ
unfolding parse_entries
file_entries = value_or ([], []) (parse_entries 1 lines)

file_loads : parse_crontab 1 lines ≡ done file_loaded
unfolding parse_crontab
file_loads = refl

file_parses : parse_entries 1 lines ≡ done file_entries
unfolding parse_entries
file_parses = refl

parse_crontab-parse_entries_example :
    (map target file_loaded.0 ≡ enabled file_entries.0)
    × (map warning_line file_loaded.1 ≡ file_entries.1)
parse_crontab-parse_entries_example =
    parse_crontab-parse_entries 1 lines file_loaded file_entries file_loads file_parses

parse_entries-Covers_example : Covers 1 lines file_entries.0
parse_entries-Covers_example = parse_entries-Covers 1 lines file_entries file_parses

abbrev two_jobs : List ScheduledJob
two_jobs = job_a ∷ record job_a { url = codes "/b"; running = false } ∷ []

abbrev before : Scheduler
before = record { jobs = two_jobs; loaded = true; last_mod = 1; last_size = 2 }

abbrev changed : Stat
changed = found 3 4 (some (codes "30 */6 1,15 * 1-5 curl \"/a\"" ∷ lines))

abbrev scheduler_or : Scheduler → Result Reload → Scheduler
scheduler_or d (done (reloaded s)) = s
scheduler_or d _ = d

abbrev after : Scheduler
unfolding reload
after = scheduler_or before (reload before changed)

file_reloads : reload before changed ≡ done (reloaded after)
unfolding reload
file_reloads = refl

two_jobs-HasDistinctKeys : HasDistinctKeys two_jobs
two_jobs-HasDistinctKeys = ((refl, tt), (tt, tt))

reload-Carries_example :
    All (KeepsGuard two_jobs) after.jobs × (reload after changed ≡ done (unchanged after))
reload-Carries_example = reload-Carries before after changed two_jobs-HasDistinctKeys file_reloads

-- The request of the first job goes on behind the reload.
carried : map (λ j. j.running) after.jobs ≡ (true ∷ false ∷ [])
unfolding reload
carried = refl
