-- ===== src/Cron/Rule.antt =====
-- `matches` is the rule of cron over what the five fields select, and `NextRun` finds the first match.
use mathlib.Core.Path.{subst}
use native.Mathlib.Nat.{eq-or-lt_of_le}
use jacred_go.Base.{
  ℕ, zero, suc, ◌+◌, ◌≤◌, ◌<◌, ◌≡◌, ◌≢◌, refl, sym, ap, ◌∙◌, Bool, true, false, not, ◌&&◌, ◌||◌,
  List, [], ◌∷◌, Str, Option, none, some, arith, length, Bool-cases, inl, inr, if◌then◌else◌, equal,
  codes,
}
use jacred_go.Base.Split.{split_at}
use jacred_go.Cron.Field.{
  Result, done, fail, panic, out_of_fuel, ◌>>=◌, bit, Element, fill_field, >>=-eq-done,
}
use jacred_go.Cron.Elements.{elements, selected, Fills, fill_field-Fills}
use jacred_go.Cron.Schedule.{
  Schedule, blank, parse_schedule, Clock, day_matches, matches, next_match, next_run_of, next_run,
  year_of_minutes,
}

-- The field selects the value `x`, of the `size` values from `base` on.
abbrev selected_if_done : Result (List Element) → ℕ → Bool
selected_if_done (done es) x = selected es x
selected_if_done _ x = false

pub selects : ℕ → ℕ → Str → ℕ → Bool
selects base size field x = selected_if_done (elements base size (split_at b',' field)) x

length-blank : (n : ℕ) → length (blank n) ≡ n
length-blank zero = refl
length-blank (suc n) = ap suc (length-blank n)

bit-blank : (n k : ℕ) → bit (blank n) k ≡ false
bit-blank zero k = refl
bit-blank (suc n) zero = refl
bit-blank (suc n) (suc k) = bit-blank n k

fill_field-selects :
    (base n : ℕ) (field : Str) (k : ℕ) {bits : List Bool}
    → fill_field base field (blank n) ≡ done bits
    → k < n
    → bit bits k ≡ selects base n field (base + k)
unfolding selects
fill_field-selects base n field k {bits} e inside =
    go (rw e at (fill_field-Fills base field (blank n)))
  where
    go :
        Fills base (blank n) (split_at b',' field) (done bits)
        → bit bits k ≡ selects base n field (base + k)
    go (es, q, m, g) =
        g k (omega (arith, length-blank n))
        ∙ ap (λ b. b || selected es (base + k)) (bit-blank n k)
        ∙ sym (ap (λ r. selected_if_done r (base + k)) (rw (length-blank n) at q))

pub record IsClock (t : Clock) : Type 0 where
  pub minute_in : t.minute < 60
  pub hour_in : t.hour < 24
  pub day_in : (1 ≤ t.day) × (t.day ≤ 31)
  pub month_in : (1 ≤ t.month) × (t.month ≤ 12)
  pub weekday_in : t.weekday < 7

-- The rule of cron: minute, hour and month are selected, and so is the day: by either of the two day
-- fields where both are restricted, else by the restricted one.
abbrev pub day_rule : Bool → Bool → Bool → Bool → Bool
day_rule dom_star dow_star dom dow =
    if dom_star then dow_star || dow else if dow_star then dom else dom || dow

abbrev pub cron_rule : Str → Str → Str → Str → Str → Clock → Bool
cron_rule f0 f1 f2 f3 f4 t =
    selects 0 60 f0 t.minute
    && selects 0 24 f1 t.hour
    && selects 1 12 f3 t.month
    && day_rule (equal f2 (codes "*")) (equal f4 (codes "*")) (selects 1 31 f2 t.day)
        (selects 0 7 f4 t.weekday)

-- The bits of the two arrays that begin with an unused bit.
from_one :
    (n : ℕ) (field : Str) (x : ℕ) {bits : List Bool}
    → fill_field 1 field (blank n) ≡ done bits
    → (1 ≤ x) × (x ≤ n)
    → bit (false ∷ bits) x ≡ selects 1 n field x
from_one n field zero e h = absurd (omega arith)
from_one n field (suc k) e h =
    fill_field-selects 1 n field k e (omega arith) ∙ ap (selects 1 n field) (omega arith)

from_zero :
    (n : ℕ) (field : Str) (x : ℕ) {bits : List Bool}
    → fill_field 0 field (blank n) ≡ done bits
    → x < n
    → bit bits x ≡ selects 0 n field x
from_zero n field x e h = fill_field-selects 0 n field x e h ∙ ap (selects 0 n field) (omega arith)

-- The arrays of a schedule are those that its fields fill.
record Parts (f0 f1 f2 f3 f4 : Str) (s : Schedule) : Type 0 where
  dom : List Bool
  month : List Bool
  minute_filled : fill_field 0 f0 (blank 60) ≡ done s.minute
  hour_filled : fill_field 0 f1 (blank 24) ≡ done s.hour
  dom_filled : fill_field 1 f2 (blank 31) ≡ done dom
  month_filled : fill_field 1 f3 (blank 12) ≡ done month
  dow_filled : fill_field 0 f4 (blank 7) ≡ done s.dow
  dom_shifted : s.dom ≡ false ∷ dom
  month_shifted : s.month ≡ false ∷ month
  dom_flag : s.dom_restricted ≡ not (equal f2 (codes "*"))
  dow_flag : s.dow_restricted ≡ not (equal f4 (codes "*"))

done_inj {ℓ} : {A : Type ℓ} {a b : A} → done a ≡ done b → a ≡ b
done_inj h = cc

parse_schedule-Parts :
    (f0 f1 f2 f3 f4 : Str) {s : Schedule}
    → parse_schedule (f0 ∷ f1 ∷ f2 ∷ f3 ∷ f4 ∷ []) ≡ done s
    → Parts f0 f1 f2 f3 f4 s
unfolding parse_schedule
parse_schedule-Parts f0 f1 f2 f3 f4 {s} h =
    let (minute, e0, h0) = >>=-eq-done (fill_field 0 f0 (blank 60)) _ h in
    let (hour, e1, h1) = >>=-eq-done (fill_field 0 f1 (blank 24)) _ h0 in
    let (dom, e2, h2) = >>=-eq-done (fill_field 1 f2 (blank 31)) _ h1 in
    let (month, e3, h3) = >>=-eq-done (fill_field 1 f3 (blank 12)) _ h2 in
    let (dow, e4, h4) = >>=-eq-done (fill_field 0 f4 (blank 7)) _ h3 in
    subst (Parts f0 f1 f2 f3 f4) (done_inj h4) (record {
      dom = dom;
      month = month;
      minute_filled = e0;
      hour_filled = e1;
      dom_filled = e2;
      month_filled = e3;
      dow_filled = e4;
      dom_shifted = refl;
      month_shifted = refl;
      dom_flag = refl;
      dow_flag = refl;
    })

rule_lem :
    (minute hour month dom dow dom_star dow_star : Bool)
    → (if not minute || not hour || not month
        then false
        else day_matches (not dom_star) (not dow_star) dom dow)
      ≡ minute && hour && month && day_rule dom_star dow_star dom dow
unfolding day_matches
rule_lem minute hour month dom dow dom_star dow_star = ground arith

matches-Parts :
    (f0 f1 f2 f3 f4 : Str) (s : Schedule) (t : Clock)
    → Parts f0 f1 f2 f3 f4 s
    → IsClock t
    → matches s t ≡ cron_rule f0 f1 f2 f3 f4 t
unfolding matches
matches-Parts f0 f1 f2 f3 f4 s t p c =
    let a = from_zero 60 f0 t.minute p.minute_filled c.minute_in in
    let b = from_zero 24 f1 t.hour p.hour_filled c.hour_in in
    let d = ap (λ l. bit l t.day) p.dom_shifted ∙ from_one 31 f2 t.day p.dom_filled c.day_in in
    let m =
      ap (λ l. bit l t.month) p.month_shifted ∙ from_one 12 f3 t.month p.month_filled c.month_in in
    let w = from_zero 7 f4 t.weekday p.dow_filled c.weekday_in in
    rw (a, b, m, d, w, p.dom_flag, p.dow_flag)
      (rule_lem _ _ _ _ _ (equal f2 (codes "*")) (equal f4 (codes "*")))

-- A schedule that parses from five fields matches a time, whose parts are those of a clock, exactly by
-- the rule of cron over what its fields select.
pub parse_schedule-cron_rule :
    (f0 f1 f2 f3 f4 : Str) (s : Schedule) (t : Clock)
    → parse_schedule (f0 ∷ f1 ∷ f2 ∷ f3 ∷ f4 ∷ []) ≡ done s
    → IsClock t
    → matches s t ≡ cron_rule f0 f1 f2 f3 f4 t
parse_schedule-cron_rule f0 f1 f2 f3 f4 s t h =
    matches-Parts f0 f1 f2 f3 f4 s t (parse_schedule-Parts f0 f1 f2 f3 f4 h)

-- The first match at `t` or behind it, among `left` minutes.
abbrev pub IsNext : (ℕ → Clock) → Schedule → ℕ → ℕ → Option ℕ → Type 0
IsNext at s left t none = (k : ℕ) → t ≤ k → k < t + left → matches s (at k) ≡ false
IsNext at s left t (some m) =
    (t ≤ m)
    × (m < t + left)
    × (matches s (at m) ≡ true)
    × ((k : ℕ) → t ≤ k → k < m → matches s (at k) ≡ false)

next_match-IsNext :
    (at : ℕ → Clock) (s : Schedule) (left t : ℕ) → IsNext at s left t (next_match at s left t)
unfolding next_match
next_match-IsNext at s zero t = λ k l h. absurd (omega arith)
next_match-IsNext at s (suc left) t = elim (Bool-cases (matches s (at t))) [
  | inl hit ↦ rw hit (omega arith, omega arith, hit, λ k l h. absurd (omega arith))
  | inr miss ↦
      rw miss (further (next_match at s left (t + 1)) (next_match-IsNext at s left (t + 1)) miss)
]
  where
    at_or_behind :
        (k : ℕ)
        → t ≤ k
        → matches s (at t) ≡ false
        → (t + 1 ≤ k → matches s (at k) ≡ false)
        → matches s (at k) ≡ false
    at_or_behind k l here behind = elim (eq-or-lt_of_le l) [
      | inl e ↦ ap (λ j. matches s (at j)) (sym e) ∙ here
      | inr lt ↦ behind (omega arith)
    ]

    further :
        (o : Option ℕ)
        → IsNext at s left (t + 1) o
        → matches s (at t) ≡ false
        → IsNext at s (suc left) t o
    further none f miss = λ k l h. at_or_behind k l miss (λ b. f k b (omega arith))
    further (some m) (l, h, hit, f) miss =
        (omega arith, omega arith, hit, λ k l b. at_or_behind k l miss (λ c. f k c b))

-- What `NextRun` returns: on a schedule that parses, the first minute behind `from`, within a year,
-- at which it matches, or none if there is none; and none on a schedule with an error.
abbrev pub NextRun : (ℕ → Clock) → ℕ → Result Schedule → Result (Option ℕ) → Type 0
NextRun at from (done s) (done o) = IsNext at s year_of_minutes (from + 1) o
NextRun at from (fail e) (done o) = o ≡ none
NextRun at from panic panic = Unit
NextRun at from _ _ = ⊥

next_run_of-NextRun :
    (at : ℕ → Clock) (from : ℕ) (r : Result Schedule)
    → r ≢ out_of_fuel
    → NextRun at from r (next_run_of at from r)
unfolding next_run_of
next_run_of-NextRun at from (done s) n = next_match-IsNext at s year_of_minutes (from + 1)
next_run_of-NextRun at from (fail x) n = refl
next_run_of-NextRun at from panic n = tt
next_run_of-NextRun at from out_of_fuel n = absurd (n refl)

bind-ne-out_of_fuel {ℓ κ} :
    {A : Type ℓ} {B : Type κ} (m : Result A) (f : A → Result B)
    → m ≢ out_of_fuel
    → ((a : A) → f a ≢ out_of_fuel)
    → (m >>= f) ≢ out_of_fuel
bind-ne-out_of_fuel (done a) f n g = g a
bind-ne-out_of_fuel (fail e) f n g = cc
bind-ne-out_of_fuel panic f n g = cc
bind-ne-out_of_fuel out_of_fuel f n g = absurd (n refl)

fill_field-ne-out_of_fuel :
    (base : ℕ) (field : Str) (bits : List Bool) → fill_field base field bits ≢ out_of_fuel
fill_field-ne-out_of_fuel base field bits e = rw e at (fill_field-Fills base field bits)

-- The loops of `parseSchedule` end on every list of fields: their fuel never runs out.
pub parse_schedule-ne-out_of_fuel : (fields : List Str) → parse_schedule fields ≢ out_of_fuel
unfolding parse_schedule
parse_schedule-ne-out_of_fuel (f0 ∷ f1 ∷ f2 ∷ f3 ∷ f4 ∷ []) =
    bind-ne-out_of_fuel (fill_field 0 f0 (blank 60)) _ (fill_field-ne-out_of_fuel 0 f0 (blank 60))
      λ minute.
        bind-ne-out_of_fuel (fill_field 0 f1 (blank 24)) _
          (fill_field-ne-out_of_fuel 0 f1 (blank 24))
          λ hour.
            bind-ne-out_of_fuel (fill_field 1 f2 (blank 31)) _
              (fill_field-ne-out_of_fuel 1 f2 (blank 31))
              λ dom.
                bind-ne-out_of_fuel (fill_field 1 f3 (blank 12)) _
                  (fill_field-ne-out_of_fuel 1 f3 (blank 12))
                  λ month.
                    bind-ne-out_of_fuel (fill_field 0 f4 (blank 7)) _
                      (fill_field-ne-out_of_fuel 0 f4 (blank 7)) λ dow. (cc)
parse_schedule-ne-out_of_fuel _ = cc

-- On every list of fields `NextRun` ends: where they parse as a schedule, with the first match behind the given
-- minute and within a year, or with none if no minute of that year matches; with none where they do not parse; and
-- with a panic where parsing panics.
pub next_run-NextRun :
    (at : ℕ → Clock) (fields : List Str) (from : ℕ)
    → NextRun at from (parse_schedule fields) (next_run at fields from)
unfolding next_run
next_run-NextRun at fields from =
    next_run_of-NextRun at from (parse_schedule fields) (parse_schedule-ne-out_of_fuel fields)
