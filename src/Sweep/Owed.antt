-- ===== src/Sweep/Owed.antt =====
-- A cycle ends: each page costs at most the failure budget, whatever fails.
use jacred_go.Base.{
  ℕ, suc, ◌+◌, ◌-◌, ◌*◌, ◌≤◌, ◌<◌, ◌≡◌, Bool, true, false, List, [], ◌∷◌, ◌++◌, some, equal_refl,
  ltb, if◌then◌else◌, arith, Bool-cases, inl, inr,
}
use jacred_go.Sweep.Cycle.{
  fail_budget, Cycle, Slot, is_blank, pending_in_cycle, count_pending, note_attempt,
}

-- The attempts that a page may still cost.
abbrev pub owed_by : Cycle → Slot → ℕ
owed_by c s =
    if pending_in_cycle (some c) s
    then (if ltb s.fail_count fail_budget then fail_budget - s.fail_count else 1)
    else 0

pub owed : Cycle → List Slot → ℕ
owed c [] = 0
owed c (s ∷ ss) = owed_by c s + owed c ss

-- One attempt, failed or not, at a page that is pending.
pub data Attempt (c : Cycle) : List Slot → List Slot → Type 0 where
  attempt :
      (good : Bool) (before behind : List Slot) (s : Slot)
      → pending_in_cycle (some c) s ≡ true
      → Attempt c (before ++ s ∷ behind) (before ++ (note_attempt (some c) good s).0 ∷ behind)

-- Attempts one after the other, counted.
pub data Attempts (c : Cycle) (ss : List Slot) : ℕ → List Slot → Type 0 where
  none_yet : Attempts c ss 0 ss
  one_more :
      {n : ℕ} {ts us : List Slot} → Attempts c ss n ts → Attempt c ts us → Attempts c ss (suc n) us

-- An attempt at a pending page settles it, or uses up some of its budget.
note_attempt-owed_by :
    (c : Cycle) (good : Bool) (s : Slot)
    → is_blank c.cycle_id ≡ false
    → pending_in_cycle (some c) s ≡ true
    → owed_by c (note_attempt (some c) good s).0 < owed_by c s
unfolding note_attempt pending_in_cycle
note_attempt-owed_by c true s b p = ground (arith, equal_refl c.cycle_id)
note_attempt-owed_by c false s b p = ground (arith, equal_refl c.cycle_id)

owed-mid :
    (c : Cycle) (before behind : List Slot) (s t : Slot)
    → owed_by c t < owed_by c s
    → owed c (before ++ t ∷ behind) < owed c (before ++ s ∷ behind)
unfolding owed
owed-mid c [] behind s t h = omega arith
owed-mid c (x ∷ before) behind s t h = omega (arith, owed-mid c before behind s t h)

Attempts-owed :
    (c : Cycle) {ss ts : List Slot} {n : ℕ}
    → is_blank c.cycle_id ≡ false
    → Attempts c ss n ts
    → n + owed c ts ≤ owed c ss
Attempts-owed c b none_yet = omega arith
Attempts-owed c b (one_more as' (attempt good before behind s p)) =
    omega (
      arith,
      Attempts-owed c b as',
      owed-mid c before behind s _ (note_attempt-owed_by c good s b p),
    )

owed-le : (c : Cycle) (ss : List Slot) → owed c ss ≤ fail_budget * count_pending (some c) ss
unfolding owed count_pending
owed-le c [] = omega arith
owed-le c (s ∷ ss) = elim (Bool-cases (pending_in_cycle (some c) s)) [
  | inl p ↦ rw p (ground (arith, owed-le c ss))
  | inr d ↦ rw d (omega (arith, owed-le c ss))
]

-- In a cycle with an id, attempts at pending pages can follow one another no more often than the
-- failure budget for each page that is pending at first, however many of them fail.
pub Attempts-le :
    (c : Cycle) (ss : List Slot) {ts : List Slot} {n : ℕ}
    → is_blank c.cycle_id ≡ false
    → Attempts c ss n ts
    → n ≤ fail_budget * count_pending (some c) ss
Attempts-le c ss b run = omega (arith, Attempts-owed c b run, owed-le c ss)
