-- ===== src/Cron/Flights.antt =====
-- Ticks and answers in any order: no job of a schedule is in flight twice.
use jacred_go.Base.{
  ℕ, ◌+◌, ◌-◌, ◌<◌, ◌≡◌, refl, true, false, not, ◌&&◌, List, [], ◌∷◌, ◌++◌, map, arith, keep,
  if◌then◌else◌, Bool-cases, inl, inr, All, ap, ◌∙◌,
}
use jacred_go.Cron.Schedule.{Clock, matches}
use jacred_go.Cron.Scheduler.{ScheduledJob, tick_job, tick, Answer, answered, fire}

-- A job whose guard is set.
abbrev pub started : ScheduledJob → ScheduledJob
started j = record j { running = true }

-- A tick starts exactly the jobs that match and are idle, in order, each with its guard set.
pub tick_starts :
    (now : Clock) (js : List ScheduledJob)
    → (tick now js).1 ≡ map started (keep (λ j. matches j.schedule now && not j.running) js)
unfolding tick
tick_starts now [] = refl
tick_starts now (j ∷ js) = elim (Bool-cases (matches j.schedule now)) [
  | inl m ↦ elim (Bool-cases j.running) [
    | inl r ↦ rw (m, r) (tick_starts now js)
    | inr i ↦ rw (m, i) (ap (◌∷◌ (started j)) (tick_starts now js))
  ]
  | inr n ↦ rw n (tick_starts now js)
]

-- A job with the count of its requests that are under way.
pub record Flight : Type 0 where
  pub job : ScheduledJob
  pub in_flight : ℕ

pub tick_flight : Clock → Flight → Flight
tick_flight now f =
    let (j, fired) = tick_job now f.job in
    record { job = j; in_flight = if fired then f.in_flight + 1 else f.in_flight }

pub answer_flight : Answer → Flight → Flight
answer_flight a f = record { job = fire a f.job; in_flight = f.in_flight - 1 }

-- A tick of the clock, or the end of a request that is under way.
pub data Step : List Flight → List Flight → Type 0 where
  ticks : (now : Clock) (fs : List Flight) → Step fs (map (tick_flight now) fs)
  ends :
      (a : Answer) (before behind : List Flight) (f : Flight)
      → 0 < f.in_flight
      → Step (before ++ f ∷ behind) (before ++ answer_flight a f ∷ behind)

pub data Reach (fs : List Flight) : List Flight → Type 0 where
  here : Reach fs fs
  next : {gs hs : List Flight} → Reach fs gs → Step gs hs → Reach fs hs

abbrev pub IsGuarded : Flight → Type 0
IsGuarded f = f.in_flight ≡ (if f.job.running then 1 else 0)

tick_flight-IsGuarded : (now : Clock) (f : Flight) → IsGuarded f → IsGuarded (tick_flight now f)
unfolding tick_flight tick_job
tick_flight-IsGuarded now f h = elim (Bool-cases (matches f.job.schedule now)) [
  | inl m ↦ elim (Bool-cases f.job.running) [
    | inl r ↦ rw (m, r) (h ∙ rw r)
    | inr i ↦ rw (m, i) (let z : f.in_flight ≡ 0 = h ∙ rw i in omega arith)
  ]
  | inr n ↦ rw n h
]

answer_flight-IsGuarded :
    (a : Answer) (f : Flight) → 0 < f.in_flight → IsGuarded f → IsGuarded (answer_flight a f)
unfolding answer_flight fire
answer_flight-IsGuarded (answered n) f p h = ground arith
answer_flight-IsGuarded _ f p h = ground arith

Step-IsGuarded : {fs gs : List Flight} → Step fs gs → All IsGuarded fs → All IsGuarded gs
Step-IsGuarded (ticks now fs) h = ticked fs h
  where
    ticked : (fs : List Flight) → All IsGuarded fs → All IsGuarded (map (tick_flight now) fs)
    ticked [] h = tt
    ticked (f ∷ fs) h = (tick_flight-IsGuarded now f h.0, ticked fs h.1)
Step-IsGuarded (ends a before behind f p) h = ended before h
  where
    ended :
        (fs : List Flight)
        → All IsGuarded (fs ++ f ∷ behind)
        → All IsGuarded (fs ++ answer_flight a f ∷ behind)
    ended [] h = (answer_flight-IsGuarded a f p h.0, h.1)
    ended (g ∷ fs) h = (h.0, ended fs h.1)

abbrev pub idle : ScheduledJob → Flight
idle j = record { job = record j { running = false }; in_flight = 0 }

-- However ticks and answers follow one another from jobs at rest, each job has one request under way
-- where its guard is set, and none where it is not.
pub Reach-IsGuarded :
    (js : List ScheduledJob) {fs : List Flight} → Reach (map idle js) fs → All IsGuarded fs
Reach-IsGuarded js here = at_rest js
  where
    at_rest : (js : List ScheduledJob) → All IsGuarded (map idle js)
    at_rest [] = tt
    at_rest (j ∷ js) = (refl, at_rest js)
Reach-IsGuarded js (next r s) = Step-IsGuarded s (Reach-IsGuarded js r)
