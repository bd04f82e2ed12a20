-- ===== src/Cron/Schedule.antt =====
-- background/scheduler.go: `schedule`, `parseSchedule`, `matches`; background/crontabfile.go: `NextRun`.
use jacred_go.Base.{
  ℕ, zero, suc, ◌+◌, ◌*◌, Bool, true, false, not, ◌||◌, List, [], ◌∷◌, Option, none, some, Str,
  codes, equal, if◌then◌else◌,
}
use jacred_go.Cron.Field.{
  Result, done, fail, panic, out_of_fuel, ◌>>=◌, wrong_count, bit, fill_field,
}

-- One bit array for each field. `dom` and `month` begin with the unused bit 0.
pub record Schedule : Type 0 where
  pub minute : List Bool
  pub hour : List Bool
  pub dom : List Bool
  pub month : List Bool
  pub dow : List Bool
  pub dom_restricted : Bool
  pub dow_restricted : Bool

abbrev pub blank : ℕ → List Bool
blank zero = []
blank (suc n) = false ∷ blank n

-- `parseSchedule`
unfoldable pub parse_schedule : List Str → Result Schedule
unfolding fill_field
parse_schedule (f0 ∷ f1 ∷ f2 ∷ f3 ∷ f4 ∷ []) = fill_field 0 f0 (blank 60) >>= λ minute.
    fill_field 0 f1 (blank 24) >>= λ hour. fill_field 1 f2 (blank 31) >>= λ dom.
    fill_field 1 f3 (blank 12) >>= λ month. fill_field 0 f4 (blank 7) >>= λ dow. done (record {
      minute = minute;
      hour = hour;
      dom = false ∷ dom;
      month = false ∷ month;
      dow = dow;
      dom_restricted = not (equal f2 (codes "*"));
      dow_restricted = not (equal f4 (codes "*"));
    })
parse_schedule _ = fail wrong_count

-- The fields of a time that a schedule reads.
pub record Clock : Type 0 where
  pub minute : ℕ
  pub hour : ℕ
  pub day : ℕ
  pub month : ℕ
  pub weekday : ℕ

-- The switch on the two restrictions.
unfoldable pub day_matches : Bool → Bool → Bool → Bool → Bool
day_matches true true dom dow = dom || dow
day_matches true false dom dow = dom
day_matches false true dom dow = dow
day_matches false false dom dow = true

-- `matches`
unfoldable pub matches : Schedule → Clock → Bool
unfolding day_matches
matches s t =
    if not (bit s.minute t.minute) || not (bit s.hour t.hour) || not (bit s.month t.month)
    then false
    else day_matches s.dom_restricted s.dow_restricted (bit s.dom t.day) (bit s.dow t.weekday)

-- The loop of `NextRun` from minute `t`; the wall clock at a minute is the parameter `at`.
unfoldable pub next_match : (ℕ → Clock) → Schedule → ℕ → ℕ → Option ℕ
unfolding matches
next_match at s zero t = none
next_match at s (suc left) t =
    let later = next_match at s left (t + 1) in if matches s (at t) then some t else later

-- A year of minutes.
abbrev pub year_of_minutes : ℕ
year_of_minutes = 366 * 24 * 60

-- `NextRun`, on the fields of the schedule and the minute that `from` lies in. Without a result it is
-- the zero time, `none`, and so it is on a schedule that does not parse.
unfoldable pub next_run_of : (ℕ → Clock) → ℕ → Result Schedule → Result (Option ℕ)
next_run_of at from (done s) = done (next_match at s year_of_minutes (from + 1))
next_run_of at from (fail e) = done none
next_run_of at from panic = panic
next_run_of at from out_of_fuel = out_of_fuel

unfoldable pub next_run : (ℕ → Clock) → List Str → ℕ → Result (Option ℕ)
unfolding next_run_of
next_run at fields from = next_run_of at from (parse_schedule fields)
